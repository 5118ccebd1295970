-- ===== src/Daemon/MetaFile/Saved.antt =====
-- The metadata file is replaced at once, and what was written is read again.
use persona.Base.{
  ℕ, ◌+◌, ◌≡◌, refl, subst, inl, inr, true, false, Option, none, some, Result, ok, err, [], ◌∷◌,
  ◌++◌, length, take, take_all, ltb, arith, Bool-cases, Result-cases,
}
use persona.Text.Compare.{Bytes}
use persona.Replacing
use persona.Replacing.Atomic
use persona.Daemon.Metadata.{Meta, MetaError, validate_meta}
use persona.Daemon.MetaFile

module _ (old : Option Replacing.File) (new : Bytes) where
  renamed-Finishes :
      (rename open_dir sync_dir : Option Bytes)
      → Atomic.Finishes old new
          (record { content = new; synced = true })
          (Replacing.call Replacing.rename rename Replacing.abandon (elim open_dir [
            | some why ↦ MetaFile.fail_late why
            | none ↦
                Replacing.call Replacing.sync_dir sync_dir MetaFile.fail_late
                  (MetaFile.deferred none)
          ]))
  renamed-Finishes (some why) open_dir sync_dir = Atomic.abandon-Finishes old new _ why
  renamed-Finishes none (some why) sync_dir = record {
    intact = (
      (inl refl, inl refl),
      ((inr refl, inl refl), ((inr refl, inl refl), (inr refl, inl refl))),
    );
    left = (refl, inr refl, refl);
  }
  renamed-Finishes none none (some why) = record {
    intact = (
      (inl refl, inl refl),
      ((inr refl, inl refl), ((inr refl, inl refl), (inr refl, inl refl))),
    );
    left = (refl, inr refl, refl);
  }
  renamed-Finishes none none none = record {
    intact = (
      (inl refl, inl refl),
      ((inr refl, inl refl), ((inr refl, inr refl), ((inr refl, inr refl), (inr refl, inr refl)))),
    );
    left = (refl, refl, refl);
  }

  synced-Finishes :
      (o : Option Bytes) (r : Replacing.Run)
      → Atomic.Finishes old new (record { content = new; synced = true }) r
      → Atomic.Finishes old new
          (record { content = new; synced = false })
          (Replacing.call Replacing.sync o Replacing.abandon r)
  synced-Finishes (some why) r h = Atomic.abandon-Finishes old new _ why
  synced-Finishes none r h = record { intact = ((inl refl, inl refl), h.intact); left = h.left }

  publish-Finishes :
      (c : MetaFile.WriteCalls)
      → Atomic.Finishes old new (record { content = new; synced = false }) (MetaFile.publish c)
  unfolding MetaFile.publish
  publish-Finishes c = synced-Finishes c.fsync _ (
      Atomic.same-Finishes old new _ _ c.close_temp _ refl (
        Atomic.same-Finishes old new _ _ c.chmod_temp _ refl
          (renamed-Finishes c.rename_temp c.open_dir c.fsync_dir)))

  write_temp-Finishes :
      (c : MetaFile.WriteCalls) (w : Option (Bytes × ℕ))
      → Atomic.Finishes old new
          (record { content = []; synced = true })
          (MetaFile.write_temp c new w)
  unfolding MetaFile.write_temp
  write_temp-Finishes c (some (why, n)) =
      Atomic.write-Finishes old new (take n new) _ (Atomic.abandon-Finishes old new _ why)
  write_temp-Finishes c none = Atomic.write-Finishes old new new _ (publish-Finishes c)

  in_dir-IsAtomic :
      (c : MetaFile.WriteCalls) (o : Option Bytes)
      → Atomic.IsAtomic old new (MetaFile.in_dir c new o)
  unfolding MetaFile.in_dir
  in_dir-IsAtomic c (some why) = Atomic.stop-IsAtomic old new why
  in_dir-IsAtomic c none =
      Atomic.created-IsAtomic old new c.create_temp _ (write_temp-Finishes c c.write_error)

  write_text-IsAtomic :
      (c : MetaFile.WriteCalls) → Atomic.IsAtomic old new (MetaFile.write_text c new)
  unfolding MetaFile.write_text
  write_text-IsAtomic c = elim (Bool-cases (ltb MetaFile.metadata_limit (length new))) [
    | inl large ↦ simp large (Atomic.stop-IsAtomic old new _)
    | inr small ↦ simp small (in_dir-IsAtomic c c.mkdir_all)
  ]

-- What `json.MarshalIndent` writes for the metadata, `json.Unmarshal` reads, also with a newline
-- behind it.
abbrev pub IsLossless : MetaFile.Json → Meta → Type 0
IsLossless json meta =
    (text : Bytes)
    → json.marshal_indent meta ≡ ok text
    → json.unmarshal (text ++ b'\n' ∷ []) ≡ ok meta

read_text-unmarshal :
    (m : ℕ) (json : MetaFile.Json) (text : Bytes) {meta : Meta}
    → ltb m (length text) ≡ false
    → json.unmarshal text ≡ ok meta
    → MetaFile.read_text m json text ≡ MetaFile.accepted meta (validate_meta meta)
unfolding MetaFile.read_text MetaFile.unmarshalled
read_text-unmarshal m json text fits e = rw (take_all (m + 1) text (ground arith), fits, e) refl

validated-IsAtomic :
    (old : Option Replacing.File) (json : MetaFile.Json) (c : MetaFile.WriteCalls) (meta : Meta)
    (text : Bytes) (v : Result MetaError (Unit {0}))
    → json.marshal_indent meta ≡ ok text
    → Atomic.IsAtomic old (text ++ b'\n' ∷ []) (MetaFile.write_validated json c meta v)
unfolding MetaFile.write_validated MetaFile.write_marshalled
validated-IsAtomic old json c meta text (err why) e = Atomic.stop-IsAtomic old _ _
validated-IsAtomic old json c meta text (ok _) e = rw e (write_text-IsAtomic old _ c)

-- The metadata file is replaced at once or not at all, whatever fails and whenever the machine
-- stops, and a write without an error leaves the new text for good.
pub write_session_meta-IsAtomic :
    (old : Option Replacing.File) (json : MetaFile.Json) (c : MetaFile.WriteCalls) (meta : Meta)
    (text : Bytes)
    → json.marshal_indent (MetaFile.with_schema meta) ≡ ok text
    → Atomic.IsAtomic old (text ++ b'\n' ∷ []) (MetaFile.write_session_meta json c meta)
unfolding MetaFile.write_session_meta
write_session_meta-IsAtomic old json c meta text e = validated-IsAtomic old json c _ text _ e

write_text-fits :
    (c : MetaFile.WriteCalls) (text : Bytes)
    → (MetaFile.write_text c text).error ≡ none
    → ltb MetaFile.metadata_limit (length text) ≡ false
unfolding MetaFile.write_text
write_text-fits c text e = elim (Bool-cases (ltb MetaFile.metadata_limit (length text))) [
  | inl large ↦ absurd (cc (rw large at e))
  | inr small ↦ small
]

-- a write without an error passed the validation and was of an allowed size
validated_ok :
    (json : MetaFile.Json) (c : MetaFile.WriteCalls) (meta : Meta) (v : Result MetaError (Unit {0}))
    → (MetaFile.write_validated json c meta v).error ≡ none
    → (v ≡ ok tt)
      × ((text : Bytes) × (json.marshal_indent meta ≡ ok text)
          × (ltb MetaFile.metadata_limit (length (text ++ b'\n' ∷ [])) ≡ false))
unfolding MetaFile.write_validated MetaFile.write_marshalled
validated_ok json c meta (err why) e = absurd (cc e)
validated_ok json c meta (ok tt) e = elim (Result-cases (json.marshal_indent meta)) [
  | inr (why, f) ↦ absurd (cc (rw f at e))
  | inl (text, f) ↦ (refl, (text, f, write_text-fits c (text ++ b'\n' ∷ []) (rw f at e)))
]

read_file-content :
    (json : MetaFile.Json) (text : Bytes) {meta : Meta}
    → ltb MetaFile.metadata_limit (length text) ≡ false
    → json.unmarshal text ≡ ok meta
    → validate_meta meta ≡ ok tt
    → MetaFile.read_session_meta json
        (ok (record { is_regular = true; size = length text; content = text; read_error = none }))
      ≡ ok meta
unfolding MetaFile.read_session_meta MetaFile.read_file MetaFile.read_all MetaFile.accepted
read_file-content json text small e valid =
    rw (small, read_text-unmarshal MetaFile.metadata_limit json text small e, valid) refl

-- If `writeDaemonSessionMeta` has no error, then `readDaemonSessionMeta` of the file that it leaves
-- gives the metadata that were written, with the schema of this version; package json is taken to
-- read what it writes for these metadata.
pub write_session_meta-read :
    (old : Option Replacing.File) (json : MetaFile.Json) (c : MetaFile.WriteCalls) (meta : Meta)
    → IsLossless json (MetaFile.with_schema meta)
    → (MetaFile.write_session_meta json c meta).error ≡ none
    → (f : Replacing.File) × ((Replacing.apply_all
          (MetaFile.write_session_meta json c meta).effects
          (record { target = old; kept = old; temp = none })).target
        ≡ some f)
      × (MetaFile.read_session_meta json (
            ok (record {
              is_regular = true;
              size = length f.content;
              content = f.content;
              read_error = none;
            }))
          ≡ ok (MetaFile.with_schema meta))
unfolding MetaFile.write_session_meta
write_session_meta-read old json c meta lossless e =
    let m = MetaFile.with_schema meta in
    let (valid, (text, marshalled, small)) = validated_ok json c m (validate_meta m) e in
    let whole = validated-IsAtomic old json c m text (validate_meta m) marshalled in
    let left =
      subst
        (λ o. Atomic.Left old (text ++ b'\n' ∷ []) o (
          Replacing.apply_all (MetaFile.write_validated json c m (validate_meta m)).effects
            (record { target = old; kept = old; temp = none })))
        e whole.left in
    (
      record { content = text ++ b'\n' ∷ []; synced = true },
      left.0,
      read_file-content json (text ++ b'\n' ∷ []) small (lossless text marshalled) valid,
    )
