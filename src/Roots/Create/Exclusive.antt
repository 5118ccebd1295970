-- ===== src/Roots/Create/Exclusive.antt =====
-- The directory of a new session is nobody else's.
use persona.Base.{
  ℕ, zero, suc, ◌+◌, ◌<◌, ◌≤◌, ◌≡◌, ◌≢◌, refl, subst, ◌∙◌, dec_lt, List, [], ◌∷◌, All, Option, none,
  some, Result, ok, err, >>-eq-ok, >>=-eq-ok, arith,
}
use persona.Text.Compare.{Bytes, codes}
use persona.Text.Filepath.{join_path}
use persona.Roots.Owner
use persona.Roots.Create

-- the attempt that made the directory, behind others whose names were taken
pub record Made (attempt : ℕ → Create.Attempt) (first last : ℕ) (id : Bytes) : Type 0 where
  pub at : ℕ
  pub above : first ≤ at
  pub below : at < last
  pub named : (attempt at).new_id ≡ ok id
  pub new : (attempt at).mkdir ≡ Create.made
  pub taken : (j : ℕ) → first ≤ j → j < at → (attempt j).mkdir ≡ Create.exists

later-Made :
    (attempt : ℕ → Create.Attempt) (i last : ℕ) (id : Bytes)
    → (attempt i).mkdir ≡ Create.exists
    → Made attempt (i + 1) last id
    → Made attempt i last id
later-Made attempt i last id e m = record {
  at = m.at;
  above = omega (arith, m.above);
  below = m.below;
  named = m.named;
  new = m.new;
  taken = λ j low high. elim (dec_lt i j) [
    | yes later ↦ m.taken j (omega arith) high
    | no same ↦ let q : i ≡ j = omega arith in subst (λ k. (attempt k).mkdir ≡ Create.exists) q e
  ];
}

made-Made :
    (attempt : ℕ → Create.Attempt) (i last : ℕ) (id name : Bytes) (m : Create.Mkdir)
    (more : Result Owner.OwnerError Bytes)
    → i < last
    → (more ≡ ok id → Made attempt (i + 1) last id)
    → (attempt i).new_id ≡ ok name
    → (attempt i).mkdir ≡ m
    → Create.mkdir_or name m more ≡ ok id
    → Made attempt i last id
made-Made attempt i last id name Create.made more b onward e q k = record {
  at = i;
  above = omega arith;
  below = b;
  named = e ∙ cc k;
  new = q;
  taken = λ j low high. absurd (omega arith);
}
made-Made attempt i last id name Create.exists more b onward e q k =
    later-Made attempt i last id q (onward k)
made-Made attempt i last id name (Create.broken text) more b onward e q k = absurd (cc k)

attempted-Made :
    (attempt : ℕ → Create.Attempt) (i last : ℕ) (id : Bytes) (r : Result Bytes Bytes)
    (more : Result Owner.OwnerError Bytes)
    → i < last
    → (more ≡ ok id → Made attempt (i + 1) last id)
    → (attempt i).new_id ≡ r
    → Create.attempted (attempt i) r more ≡ ok id
    → Made attempt i last id
attempted-Made attempt i last id (err text) more b onward e k = absurd (cc k)
attempted-Made attempt i last id (ok name) more b onward e k =
    made-Made attempt i last id name (attempt i).mkdir more b onward e refl k

allocate-Made :
    (attempt : ℕ → Create.Attempt) (i left : ℕ) (id : Bytes)
    → Create.allocate attempt i left ≡ ok id
    → Made attempt i (i + left) id
unfolding Create.allocate
allocate-Made attempt i zero id h = absurd (cc h)
allocate-Made attempt i (suc left) id h =
    let e : (i + 1) + left ≡ i + suc left = omega arith in
    attempted-Made attempt i (i + suc left) id (attempt i).new_id
      (Create.allocate attempt (i + 1) left) (omega arith)
      (λ k. subst (λ n. Made attempt (i + 1) n id) e (allocate-Made attempt (i + 1) left id k)) refl
      h

unless_failed-none : (o : Option Bytes) → Create.unless_failed o ≡ ok tt → o ≡ none
unless_failed-none none h = refl
unless_failed-none (some text) h = absurd (cc h)

no_symlink-ne : (n : Owner.Node) → Create.no_symlink n ≡ ok tt → n ≢ Owner.symlink
no_symlink-ne Owner.symlink h = absurd (cc h)
no_symlink-ne Owner.missing h = λ e. cc e
no_symlink-ne Owner.directory h = λ e. cc e
no_symlink-ne Owner.special h = λ e. cc e
no_symlink-ne (Owner.regular size) h = λ e. cc e
no_symlink-ne (Owner.unreadable text) h = λ e. cc e

make_all-All :
    (c : Create.CreateCalls) (paths : List Bytes)
    → Create.make_all c paths ≡ ok tt
    → All (λ path. c.mkdir_all path ≡ none) paths
unfolding Create.make_all
make_all-All c [] h = tt
make_all-All c (path ∷ paths) h =
    let (first, rest) = >>-eq-ok _ _ h in (unless_failed-none _ first, make_all-All c paths rest)

-- what a session that `Create` returns stands on
pub record IsFresh (c : Create.CreateCalls) (git_dir : Bytes) (s : Owner.Session) : Type 0 where
  pub whole :
      s ≡ Owner.session_at git_dir s.id (join_path (Owner.sessions_root git_dir ∷ s.id ∷ []))
  pub made : Made c.attempt 0 10 s.id
  pub marked :
      (c.open_marker ≡ none)
      × (c.write_marker ≡ none)
      × (c.sync_marker ≡ none)
      × (c.close_marker ≡ none)
  pub furnished : All (λ path. c.mkdir_all path ≡ none) (Owner.subdirectories s)
  pub no_link :
      (c.lstat (join_path (git_dir ∷ codes "persona" ∷ [])) ≢ Owner.symlink)
      × (c.lstat (Owner.sessions_root git_dir) ≢ Owner.symlink)

-- A session that `Create` returns has the directories of its name below the directory of the
-- sessions, which is reached through no symbolic link that is seen; its root is one that one of at
-- most ten attempts made, behind attempts whose names were taken, and its marker is written, synced
-- and closed without an error.
pub create-IsFresh :
    (c : Create.CreateCalls) (git_dir : Bytes) (s : Owner.Session)
    → Create.create c git_dir ≡ ok s
    → IsFresh c git_dir s
unfolding Create.create Create.furnish
create-IsFresh c git_dir s h =
    let (first, rest) = >>-eq-ok _ _ h in
    let (second, rest2) = >>-eq-ok _ _ rest in
    let (dir, rest3) = >>-eq-ok _ _ rest2 in
    let (id, allocated, rest4) = >>=-eq-ok _ _ rest3 in
    let (marked, rest5) = >>-eq-ok _ _ rest4 in
    let (opened, marked2) = >>-eq-ok _ _ marked in
    let (written, marked3) = >>-eq-ok _ _ marked2 in
    let (synced, closed) = >>-eq-ok _ _ marked3 in
    let (furnished, last) = >>-eq-ok _ _ rest5 in
    let e : Owner.session_at git_dir id (join_path (Owner.sessions_root git_dir ∷ id ∷ [])) ≡ s =
      cc last in
    subst (IsFresh c git_dir) e record {
      whole = refl;
      made = allocate-Made c.attempt 0 10 id allocated;
      marked = (
        unless_failed-none _ opened,
        unless_failed-none _ written,
        unless_failed-none _ synced,
        unless_failed-none _ closed,
      );
      furnished = make_all-All c _ furnished;
      no_link = (no_symlink-ne _ first, no_symlink-ne _ second);
    }
