-- ===== src/Daemon/MetaFile.antt =====
-- `writeDaemonSessionMeta` and `readDaemonSessionMeta`: the metadata file of a session.
pub mod Saved
use persona.Base.{
  ℕ, ◌+◌, ◌*◌, Bool, true, false, ◌||◌, not, List, [], ◌∷◌, ◌++◌, Option, none, some, Result, ok,
  err, ◌>>=◌, length, take, ltb, if◌then◌else◌,
}
use persona.Text.Compare.{Bytes, codes}
use persona.Replacing.{
  Effect, Run, create, write, chmod, sync, close, unlink, rename, sync_dir, after, call, stop,
  abandon,
}
use persona.Daemon.Metadata.{Meta, MetaError, metadata_schema, validate_meta}

abbrev pub metadata_limit : ℕ
metadata_limit = 64 * 1024

-- package encoding/json of Go
pub record Json : Type 0 where
  pub marshal_indent : Meta → Result Bytes Bytes
  pub unmarshal : Bytes → Result Bytes Meta

pub record WriteCalls : Type 0 where
  pub mkdir_all : Option Bytes
  pub create_temp : Option Bytes
  pub write_error : Option (Bytes × ℕ)
  pub fsync : Option Bytes
  pub close_temp : Option Bytes
  pub chmod_temp : Option Bytes
  pub rename_temp : Option Bytes
  pub open_dir : Option Bytes
  pub fsync_dir : Option Bytes

-- the deferred calls, which find no temporary file behind the renaming
abbrev pub deferred : Option Bytes → Run
deferred why = record { effects = close ∷ unlink ∷ []; error = why }

abbrev pub fail_late : Bytes → Run
fail_late why = deferred (some why)

-- behind the writing of the temporary file
unfoldable pub publish : WriteCalls → Run
publish c = call sync c.fsync abandon (
    call close c.close_temp abandon (
      call (chmod 0o600) c.chmod_temp abandon (
        call rename c.rename_temp abandon (elim c.open_dir [
          | some why ↦ fail_late why
          | none ↦ call sync_dir c.fsync_dir fail_late (deferred none)
        ]))))

unfoldable pub write_temp : WriteCalls → Bytes → Option (Bytes × ℕ) → Run
write_temp c text (some (why, n)) = after (write (take n text)) (abandon why)
write_temp c text none = after (write text) (publish c)

unfoldable pub in_dir : WriteCalls → Bytes → Option Bytes → Run
in_dir c text (some why) = stop why
in_dir c text none = call create c.create_temp stop (write_temp c text c.write_error)

unfoldable pub write_text : WriteCalls → Bytes → Run
write_text c text =
    if ltb metadata_limit (length text)
    then stop (codes "session metadata exceeds size limit")
    else in_dir c text c.mkdir_all

abbrev pub with_schema : Meta → Meta
with_schema meta = record meta { schema_version = metadata_schema }

unfoldable pub write_marshalled : WriteCalls → Result Bytes Bytes → Run
write_marshalled c (err why) = stop why
write_marshalled c (ok text) = write_text c (text ++ b'\n' ∷ [])

unfoldable pub write_validated : Json → WriteCalls → Meta → Result MetaError (Unit {0}) → Run
write_validated json c meta (err why) = stop (codes "invalid session metadata")
write_validated json c meta (ok _) = write_marshalled c (json.marshal_indent meta)

unfoldable pub write_session_meta : Json → WriteCalls → Meta → Run
write_session_meta json c meta =
    write_validated json c (with_schema meta) (validate_meta (with_schema meta))

-- What opening the file gives: its kind, the size that `Stat` says, the text, and the error of
-- reading it, if there is one.
pub record MetaFile : Type 0 where
  pub is_regular : Bool
  pub size : ℕ
  pub content : Bytes
  pub read_error : Option Bytes

pub data ReadError : Type 0 where
  absent : ReadError
  failed : Bytes → ReadError
  invalid_file too_large : ReadError
  invalid : MetaError → ReadError

unfoldable pub accepted : Meta → Result MetaError (Unit {0}) → Result ReadError Meta
accepted meta (err why) = err (invalid why)
accepted meta (ok _) = ok meta

unfoldable pub unmarshalled : Result Bytes Meta → Result ReadError Meta
unmarshalled (err why) = err (failed why)
unmarshalled (ok meta) = accepted meta (validate_meta meta)

-- the text is cut behind the limit
unfoldable pub read_text : ℕ → Json → Bytes → Result ReadError Meta
read_text limit json content =
    let text = take (limit + 1) content in
    if ltb limit (length text) then err too_large else unmarshalled (json.unmarshal text)

unfoldable pub read_all : Json → Bytes → Option Bytes → Result ReadError Meta
read_all json content (some why) = err (failed why)
read_all json content none = read_text metadata_limit json content

unfoldable pub read_file : Json → MetaFile → Result ReadError Meta
read_file json f =
    if not f.is_regular || ltb metadata_limit f.size
    then err invalid_file
    else read_all json f.content f.read_error

-- the first argument is what the opening of the file and its `Stat` give
unfoldable pub read_session_meta : Json → Result ReadError MetaFile → Result ReadError Meta
read_session_meta json (err why) = err why
read_session_meta json (ok f) = read_file json f
