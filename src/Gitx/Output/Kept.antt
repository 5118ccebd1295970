-- ===== src/Gitx/Output/Kept.antt =====
-- What is kept of the output tells as much as the whole output would.
use persona.Base.{
  ℕ, zero, suc, le→leb, lt→leb_false, lt→ltb, ◌+◌, ◌-◌, ◌≤◌, ◌<◌, ◌≡◌, refl, sym, subst, ap, ◌∙◌,
  false, List, [], ◌∷◌, ◌++◌, append_assoc, append-nil, arith, length, length-append, take,
  length-take, take_all, drop, dec_le, inl, inr, Bool-cases, ltb, leb, if◌then◌else◌,
}
use persona.Text.Compare.{Bytes, codes, has_prefix}
use persona.Text.Search.{contains, contains-append, tail, tail-append, tail-append_long, tail-all}
use persona.Gitx.Output

-- the whole output
abbrev pub concat : List Bytes → Bytes
concat [] = []
concat (p ∷ ps) = p ++ concat ps

-- the state behind an output, told from the whole of it
record Knows (w : Bytes) (b : Output.BoundedOutput) : Type 0 where
  pub found : b.already_exists ≡ contains w Output.exists_message
  pub last : b.already_exists ≡ false → b.last ≡ tail 34 w
  pub buffer : b.buffer ≡ take (Output.max_err_output + 1) w

one_less : (n : ℕ) → suc n - 1 ≡ n
one_less n = omega arith

none_less : (n : ℕ) → n - 0 ≡ n
none_less n = omega arith

both_less : (a b : ℕ) → suc a - suc b ≡ a - b
both_less a b = omega arith

last_after_lem :
    (message w p : Bytes) (n : ℕ)
    → length message ≡ suc n
    → Output.last_after message (tail n w) p ≡ tail n (w ++ p)
unfolding Output.last_after
last_after_lem message w p n h =
    rw (h, one_less n)
      (elim (dec_le n (length p)) [
        | yes long ↦ rw (le→leb n (length p) long) (sym (tail-append_long n w p long))
        | no short ↦
            rw (lt→leb_false n (length p) (omega arith))
              (joined (length (tail n w ++ p)) (tail n w ++ p) refl ∙ sym (tail-append n w p))
      ])
  where
    joined :
        (k : ℕ) (s : Bytes)
        → k ≡ length s
        → (if leb (suc n) k then drop (k - n) s else s) ≡ tail n s
    joined k s e = elim (dec_le (suc n) k) [
      | yes more ↦ rw (le→leb (suc n) k more) (ap (λ j. drop (j - n) s) e)
      | no less ↦ rw (lt→leb_false (suc n) k (omega arith)) (sym (tail-all n s (omega (arith, e))))
    ]

take-append : (k : ℕ) (w p : Bytes) → take k w ++ take (k - length (take k w)) p ≡ take k (w ++ p)
take-append zero w p = refl
take-append (suc k) [] p = ap (λ j. take j p) (none_less (suc k))
take-append (suc k) (c ∷ w) p =
    ap (◌∷◌ c)
      (ap (λ j. take k w ++ take j p) (both_less k (length (take k w))) ∙ take-append k w p)

buffer_after-take :
    (k : ℕ) (s p : Bytes) → Output.buffer_after k s p ≡ s ++ take (k + 1 - length s) p
unfolding Output.buffer_after
buffer_after-take k s p = room (k + 1 - length s)
  where
    room :
        (r : ℕ)
        → (if ltb 0 r then s ++ (if ltb r (length p) then take r p else p) else s) ≡ s ++ take r p
    room zero = sym (append-nil s)
    room (suc r) = rw (lt→ltb 0 (suc r) (omega arith)) (elim (Bool-cases (ltb (suc r) (length p))) [
      | inl less ↦ rw less refl
      | inr all ↦ rw (all, take_all (suc r) p (ground (arith, all))) refl
    ])

buffer_after_lem :
    (k : ℕ) (w p : Bytes) → Output.buffer_after k (take (k + 1) w) p ≡ take (k + 1) (w ++ p)
buffer_after_lem k w p = buffer_after-take k (take (k + 1) w) p ∙ take-append (k + 1) w p

note_found :
    (m w p : Bytes) (n : ℕ) (b : Output.BoundedOutput)
    → length m ≡ suc n
    → b.already_exists ≡ contains w m
    → (b.already_exists ≡ false → b.last ≡ tail n w)
    → (Output.note m p b).already_exists ≡ contains (w ++ p) m
unfolding Output.note Output.found_after
note_found m w p n b h f l = elim (Bool-cases b.already_exists) [
  | inl found ↦ simp found (rw (contains-append m w p n h, sym f ∙ found) refl)
  | inr unseen ↦
      simp (unseen, l unseen) (rw (contains-append m w p n h, sym f ∙ unseen, h, one_less n) refl)
]

note_last :
    (m w p : Bytes) (n : ℕ) (b : Output.BoundedOutput)
    → length m ≡ suc n
    → (b.already_exists ≡ false → b.last ≡ tail n w)
    → (Output.note m p b).already_exists ≡ false
    → (Output.note m p b).last ≡ tail n (w ++ p)
unfolding Output.note
note_last m w p n b h l g = elim (Bool-cases b.already_exists) [
  | inl found ↦ absurd (cc (simp found at g))
  | inr unseen ↦ simp (unseen, l unseen) (last_after_lem m w p n h)
]

note_buffer : (m p : Bytes) (b : Output.BoundedOutput) → (Output.note m p b).buffer ≡ b.buffer
unfolding Output.note
note_buffer m p b = elim (Bool-cases b.already_exists) [
  | inl found ↦ simp found refl
  | inr unseen ↦ simp unseen refl
]

write-Knows :
    (w p : Bytes) (b : Output.BoundedOutput) → Knows w b → Knows (w ++ p) (Output.write p b).0
unfolding Output.write
write-Knows w p b k = record {
  found = note_found Output.exists_message w p 34 b refl k.found k.last;
  last = note_last Output.exists_message w p 34 b refl k.last;
  buffer =
      ap (λ t. Output.buffer_after Output.max_err_output t p)
        (note_buffer Output.exists_message p b ∙ k.buffer)
      ∙ buffer_after_lem Output.max_err_output w p;
}

write_all-Knows :
    (ps : List Bytes) (w : Bytes) (b : Output.BoundedOutput)
    → Knows w b
    → Knows (w ++ concat ps) (Output.write_all ps b)
unfolding Output.write_all
write_all-Knows [] w b k = subst (λ s. Knows s b) (sym (append-nil w)) k
write_all-Knows (p ∷ ps) w b k =
    subst (λ s. Knows s (Output.write_all ps (Output.write p b).0)) (append_assoc w p (concat ps))
      (write_all-Knows ps (w ++ p) (Output.write p b).0 (write-Knows w p b k))

take-take : (m : ℕ) (s : Bytes) → take m (take (suc m) s) ≡ take m s
take-take zero s = refl
take-take (suc m) [] = refl
take-take (suc m) (c ∷ s) = ap (◌∷◌ c) (take-take m s)

-- to clip a text that was cut one byte behind the limit is to clip the text
clip-take :
    (m : ℕ) (mark s : Bytes)
    → (let t = take (suc m) s in if leb (length t) m then t else take m t ++ mark)
      ≡ (if leb (length s) m then s else take m s ++ mark)
clip-take m mark s = elim (dec_le (length s) (suc m)) [
  | yes short ↦ rw (take_all (suc m) s short) refl
  | no long ↦
      rw
        (
          lt→leb_false (length s) m (omega arith),
          lt→leb_false (length (take (suc m) s)) m
              (subst (λ k. m < k) (sym (length-take (suc m) s)) (omega arith)),
          take-take m s,
        )
        refl
]

truncate_output-take : (s : Bytes) → Output.truncate_output (take 513 s) ≡ Output.truncate_output s
unfolding Output.truncate_output
truncate_output-take s = clip-take Output.max_err_output _ s

none-Knows : Knows [] Output.no_output
unfolding contains has_prefix
none-Knows = record { found = refl; last = λ h. refl; buffer = refl }

-- However the output of a program is split into calls of `Write`, the message that a file exists
-- already is found exactly if it is in the whole output, and the error text that is made of what is
-- kept is the one that the whole output gives.
pub write_all-whole :
    (ps : List Bytes)
    → ((Output.write_all ps Output.no_output).already_exists
        ≡ contains (concat ps) Output.exists_message)
      × (Output.truncate_output (Output.write_all ps Output.no_output).buffer
          ≡ Output.truncate_output (concat ps))
write_all-whole ps =
    let k = write_all-Knows ps [] Output.no_output none-Knows in
    (k.found, ap Output.truncate_output k.buffer ∙ truncate_output-take (concat ps))

length-clip :
    (m : ℕ) (mark s : Bytes)
    → length (if leb (length s) m then s else take m s ++ mark) ≤ m + length mark
length-clip m mark s = elim (dec_le (length s) m) [
  | yes short ↦ rw (le→leb (length s) m short) (omega arith)
  | no long ↦
      rw (lt→leb_false (length s) m (omega arith))
        (omega (arith, length-append (take m s) mark, length-take m s))
]

-- However much a program writes, at most 513 bytes of it are kept, and the text in an error has at
-- most 527.
pub write_all-bounded :
    (ps : List Bytes)
    → (length (Output.write_all ps Output.no_output).buffer ≤ 513)
      × (length (Output.truncate_output (Output.write_all ps Output.no_output).buffer) ≤ 527)
unfolding Output.truncate_output
write_all-bounded ps =
    let k = write_all-Knows ps [] Output.no_output none-Knows in
    (
      omega (arith, ap length k.buffer, length-take 513 (concat ps)),
      length-clip Output.max_err_output (codes "... (truncated)")
          (Output.write_all ps Output.no_output).buffer,
    )
