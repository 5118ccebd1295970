-- ===== src/Patchio/DiffHeader/Candidates.antt =====
-- Which pairs of paths the header of a file is read as.
use persona.Base.{
  ◌≤◌, ◌≡◌, refl, sym, subst, append-nil, ◌∙◌, inl, inr, true, false, ◌&&◌, List, [], ◌∷◌, ◌++◌, ok,
  arith, length, length-append, ◌==◌, Bool-cases, Has, Has-append_left, Has-append_right,
  append_assoc, >>=-eq-ok,
}
use persona.Text.Compare.{Bytes, has_prefix-append, trim_left}
use persona.Patchio.DiffHeader.{
  PathPair, diff_git, decode, is_symmetric, starts_right, scan_splits, or_first_space,
  unquoted_pairs, header_pairs, diff_header_paths,
}

scan_splits_keeps :
    (text : Bytes) (paths : List PathPair) (left : Bytes) (out : List PathPair) (x : PathPair)
    → scan_splits paths left text ≡ ok out
    → Has x paths
    → Has x out
unfolding scan_splits
scan_splits_keeps [] paths left out x e h = subst (Has x) (ground arith) h
scan_splits_keeps (c ∷ right) paths left out x e h =
    elim (Bool-cases (c == b' ' && starts_right right)) [
      | inl split_ ↦ elim (Bool-cases (length paths == 64)) [
        | inl full ↦ absurd (cc (rw (split_, full) at e))
        | inr room ↦
            scan_splits_keeps right (paths ++ (decode left, decode right) ∷ []) (left ++ c ∷ []) out
              x (rw (split_, room) at e) (Has-append_left x paths _ h)
      ]
      | inr onward ↦ scan_splits_keeps right paths (left ++ c ∷ []) out x (rw onward at e) h
    ]

scan_splits_finds :
    (u right : Bytes) (paths : List PathPair) (left : Bytes) (out : List PathPair)
    → scan_splits paths left (u ++ (b' ' ∷ right)) ≡ ok out
    → starts_right right ≡ true
    → Has (decode (left ++ u), decode right) out
unfolding scan_splits
scan_splits_finds [] right paths left out e s = elim (Bool-cases (length paths == 64)) [
  | inl full ↦ absurd (cc (rw (s, full) at e))
  | inr room ↦
      let pair : PathPair = (decode left, decode right) in
      rw (append-nil left) (
        scan_splits_keeps right (paths ++ pair ∷ []) (left ++ b' ' ∷ []) out pair
          (rw (s, room) at e) (Has-append_right pair paths (pair ∷ []) (inl refl)))
]
scan_splits_finds (c ∷ u) right paths left out e s =
    rw (← append_assoc left (c ∷ []) u) (elim (Bool-cases (c == b' ' && starts_right rest)) [
      | inl split_ ↦ elim (Bool-cases (length paths == 64)) [
        | inl full ↦ absurd (cc (rw (split_, full) at e))
        | inr room ↦
            scan_splits_finds u right (paths ++ (decode left, decode rest) ∷ []) (left ++ c ∷ [])
              out (rw (split_, room) at e) s
      ]
      | inr onward ↦ scan_splits_finds u right paths (left ++ c ∷ []) out (rw onward at e) s
    ])
  where
    rest : Bytes
    rest = u ++ (b' ' ∷ right)

scan_splits_bound :
    (text : Bytes) (paths : List PathPair) (left : Bytes) (out : List PathPair)
    → scan_splits paths left text ≡ ok out
    → length paths ≤ 64
    → length out ≤ 64
unfolding scan_splits
scan_splits_bound [] paths left out e h = ground arith
scan_splits_bound (c ∷ right) paths left out e h =
    elim (Bool-cases (c == b' ' && starts_right right)) [
      | inl split_ ↦ elim (Bool-cases (length paths == 64)) [
        | inl full ↦ absurd (cc (rw (split_, full) at e))
        | inr room ↦
            scan_splits_bound right (paths ++ (decode left, decode right) ∷ []) (left ++ c ∷ []) out
              (rw (split_, room) at e)
              (ground (arith, length-append paths ((decode left, decode right) ∷ [])))
      ]
      | inr onward ↦ scan_splits_bound right paths (left ++ c ∷ []) out (rw onward at e) h
    ]

-- the line behind `diff --git `, when it begins with neither a space nor a quote
abbrev IsBare : Bytes → Type 0
IsBare [] = ⊥
IsBare (c ∷ s) = ((c == b' ') ≡ false) × ((c == b'"') ≡ false)

header_pairs_bare :
    (text : Bytes) → IsBare text → diff_header_paths (diff_git ++ text) ≡ unquoted_pairs text
unfolding diff_header_paths header_pairs trim_left
header_pairs_bare [] h = elim h [ ]
header_pairs_bare (c ∷ s) (space, quote) = rw (has_prefix-append diff_git (c ∷ s), space, quote)

IsBare-append : (u v : Bytes) → IsBare u → IsBare (u ++ v)
IsBare-append [] v h = elim h [ ]
IsBare-append (c ∷ u) v h = h

Has-or_first_space :
    (text : Bytes) (x : PathPair) (paths : List PathPair)
    → Has x paths
    → Has x (or_first_space text paths)
unfolding or_first_space
Has-or_first_space text x [] h = elim h [ ]
Has-or_first_space text x (p ∷ ps) h = h

-- If a bare header is read at all and is not of the form `a/P b/P`, then every way to split it at a
-- space before `b/` or `"b/` is among the pairs that are returned.
pub diff_header_paths_complete :
    (left right : Bytes) (pairs : List PathPair)
    → IsBare left
    → starts_right right ≡ true
    → is_symmetric (left ++ (b' ' ∷ right)) ≡ false
    → diff_header_paths (diff_git ++ (left ++ (b' ' ∷ right))) ≡ ok pairs
    → Has (decode left, decode right) pairs
unfolding unquoted_pairs
diff_header_paths_complete left right pairs bare starts skew e =
    let text = left ++ (b' ' ∷ right) in
    let e' = sym (header_pairs_bare text (IsBare-append left (b' ' ∷ right) bare)) ∙ e in
    let (paths, scanned, same) =
      >>=-eq-ok (scan_splits [] [] text) (λ paths. ok (or_first_space text paths))
        (rw skew at e') in
    let found = scan_splits_finds left right [] [] paths scanned starts in
    subst (Has (decode left, decode right)) (ground arith)
      (Has-or_first_space text (decode left, decode right) paths found)

-- `a/P b/P`
abbrev pub same_header : Bytes → Bytes
same_header path = (b'a' ∷ b'/' ∷ path) ++ (b' ' ∷ b'b' ∷ b'/' ∷ path)
