-- ===== src/Daemon/Gate/Exclusion.antt =====
-- A gate has one owner at most.
use persona.Base.{
  ℕ, ◌≢◌, inl, inr, ◌≡◌, refl, sym, subst, ◌∙◌, ap, Bool, true, false, Option, none, some, ◌==◌,
  ==_iff, ==_refl, Bool-cases, arith,
}
use persona.Text.Compare.{Bytes, equal, equal_iff, equal_refl}
use persona.Daemon.Gate

pub at_worker_same {ℓ} : {A : Type ℓ} (w : ℕ) (a : A) (f : ℕ → A) → Gate.at_worker w a f w ≡ a
unfolding Gate.at_worker
at_worker_same w a f = rw (==_refl w) refl

pub at_worker_other {ℓ} :
    {A : Type ℓ} (w v : ℕ) (a : A) (f : ℕ → A) → (w == v) ≡ false → Gate.at_worker w a f v ≡ f v
unfolding Gate.at_worker
at_worker_other w v a f h = rw h refl

pub at_key_same {ℓ} : {A : Type ℓ} (k : Bytes) (a : A) (f : Bytes → A) → Gate.at_key k a f k ≡ a
unfolding Gate.at_key
at_key_same k a f = rw (equal_refl k) refl

pub at_key_other {ℓ} :
    {A : Type ℓ} (k j : Bytes) (a : A) (f : Bytes → A)
    → equal k j ≡ false
    → Gate.at_key k a f j ≡ f j
unfolding Gate.at_key
at_key_other k j a f h = rw h refl

-- what a move does with the gate, told from where the worker is
pub data Holding (gate : Option ℕ) : Bool → Gate.Act → Bool → Type 0 where
  stays : {b : Bool} → Holding gate b Gate.stay b
  takes : gate ≡ none → Holding gate false Gate.take true
  frees : Holding gate true Gate.free false

pub Move-Holding :
    {closing : Bool} {gate : Option ℕ} {cached : Bool} {c : Gate.Call} {p q : Gate.Pc}
    {a : Gate.Act}
    → Gate.Move closing gate cached c p a q
    → Holding gate (Gate.holds p) a (Gate.holds q)
Move-Holding (Gate.in_lock Gate.lock_cancelled) = stays
Move-Holding (Gate.in_lock (Gate.lock_refused e)) = stays
Move-Holding (Gate.in_lock (Gate.lock_waits e)) = stays
Move-Holding (Gate.in_lock Gate.gate_cancelled) = stays
Move-Holding (Gate.in_lock (Gate.gate_taken e)) = takes e
Move-Holding (Gate.in_lock (Gate.closing_seen e)) = stays
Move-Holding (Gate.in_lock (Gate.closing_unseen e)) = stays
Move-Holding (Gate.in_lock Gate.gate_left) = frees
Move-Holding (Gate.in_lock Gate.unlocked) = frees
Move-Holding (Gate.in_try Gate.try_cancelled) = stays
Move-Holding (Gate.in_try (Gate.try_refused e)) = stays
Move-Holding (Gate.in_try (Gate.try_taken o e)) = takes e
Move-Holding (Gate.in_try (Gate.try_served o e t)) = stays
Move-Holding (Gate.in_try (Gate.try_blocked o e t)) = stays
Move-Holding (Gate.in_try (Gate.blocked_refused e)) = stays
Move-Holding (Gate.in_try Gate.blocked_cancelled) = stays
Move-Holding (Gate.in_try (Gate.blocked_waits e)) = stays
Move-Holding (Gate.in_shutdown (Gate.close_taken o e)) = takes e
Move-Holding (Gate.in_shutdown (Gate.drain_taken o e)) = takes e
Move-Holding (Gate.in_shutdown (Gate.drain_passed o e)) = stays

module _ (calls : ℕ → Gate.Call) where
  -- A worker is between taking a gate and giving it back exactly if the gate of its key is its own.
  pub record Owned (s : Gate.State) : Type 0 where
    pub kept : (w : ℕ) → Gate.holds (s.pc w) ≡ true → s.gate (Gate.key calls w) ≡ some w
    pub held :
        (k : Bytes) (w : ℕ)
        → s.gate k ≡ some w
        → (Gate.key calls w ≡ k) × (Gate.holds (s.pc w) ≡ true)

  own-kept :
      (s : Gate.State) (w v : ℕ) (p : Gate.Pc) {b c : Bool} {a : Gate.Act}
      → Holding (s.gate (Gate.key calls w)) b a c
      → b ≡ Gate.holds (s.pc w)
      → c ≡ true
      → Owned s
      → Gate.gate_after a w (Gate.key calls w) s.gate (Gate.key calls w) ≡ some w
  own-kept s w v p stays e f o = o.kept w (cc)
  own-kept s w v p (takes n) e f o = at_key_same (Gate.key calls w) (some w) s.gate
  own-kept s w v p frees e f o = absurd (cc f)

  other-kept :
      (s : Gate.State) (w v : ℕ) {b c : Bool} {a : Gate.Act}
      → Holding (s.gate (Gate.key calls w)) b a c
      → b ≡ Gate.holds (s.pc w)
      → (w == v) ≡ false
      → Owned s
      → s.gate (Gate.key calls v) ≡ some v
      → Gate.gate_after a w (Gate.key calls w) s.gate (Gate.key calls v) ≡ some v
  unfolding Gate.at_key
  other-kept s w v stays e d o h = h
  other-kept s w v (takes n) e d o h =
      elim (Bool-cases (equal (Gate.key calls w) (Gate.key calls v))) [
        | inl same ↦ absurd (cc ((equal_iff _ _).0 same, n, h))
        | inr other ↦ rw other h
      ]
  other-kept s w v frees e d o h = elim (Bool-cases (equal (Gate.key calls w) (Gate.key calls v))) [
    | inl same ↦ absurd (ground (arith, (equal_iff _ _).0 same, o.kept w (sym e), h, d))
    | inr other ↦ rw other h
  ]

  kept-moves :
      (s : Gate.State) (w v : ℕ) (p : Gate.Pc) {b c : Bool} {a : Gate.Act}
      → Holding (s.gate (Gate.key calls w)) b a c
      → b ≡ Gate.holds (s.pc w)
      → c ≡ Gate.holds p
      → Owned s
      → Gate.holds (Gate.at_worker w p s.pc v) ≡ true
      → Gate.gate_after a w (Gate.key calls w) s.gate (Gate.key calls v) ≡ some v
  unfolding Gate.at_worker
  kept-moves s w v p {a = a} m e f o h = elim (Bool-cases (w == v)) [
    | inl same ↦
        subst (λ u. Gate.gate_after a w (Gate.key calls w) s.gate (Gate.key calls u) ≡ some u)
          ((==_iff w v).0 same) (own-kept s w v p m e (f ∙ (rw same at h)) o)
    | inr other ↦ other-kept s w v m e other o (o.kept v (rw other at h))
  ]

  still_holds :
      (s : Gate.State) (w u : ℕ) (p : Gate.Pc)
      → Gate.holds (s.pc u) ≡ true
      → ((w == u) ≡ true → Gate.holds p ≡ true)
      → Gate.holds (Gate.at_worker w p s.pc u) ≡ true
  unfolding Gate.at_worker
  still_holds s w u p h g = elim (Bool-cases (w == u)) [
    | inl same ↦ rw same (g same)
    | inr other ↦ rw other h
  ]

  first : (w u : ℕ) → some w ≡ some u → w ≡ u
  first w u e = cc e

  held-moves :
      (s : Gate.State) (w : ℕ) (k : Bytes) (u : ℕ) (p : Gate.Pc) {b c : Bool} {a : Gate.Act}
      → Holding (s.gate (Gate.key calls w)) b a c
      → b ≡ Gate.holds (s.pc w)
      → c ≡ Gate.holds p
      → Owned s
      → Gate.gate_after a w (Gate.key calls w) s.gate k ≡ some u
      → (Gate.key calls u ≡ k) × (Gate.holds (Gate.at_worker w p s.pc u) ≡ true)
  unfolding Gate.at_key
  held-moves s w k u p stays e f o h =
      let (mine, on) = o.held k u h in
      (mine, still_holds s w u p on (λ same. ground (arith, (==_iff w u).0 same)))
  held-moves s w k u p (takes n) e f o h = elim (Bool-cases (equal (Gate.key calls w) k)) [
    | inl same ↦
        subst (λ x. (Gate.key calls x ≡ k) × (Gate.holds (Gate.at_worker w p s.pc x) ≡ true))
          (first w u (rw same at h)) ((equal_iff _ _).0 same, rw (at_worker_same w p s.pc) (sym f))
    | inr other ↦
        let (mine, on) = o.held k u (rw other at h) in (mine, still_holds s w u p on (λ yes. sym f))
  ]
  held-moves s w k u p frees e f o h = elim (Bool-cases (equal (Gate.key calls w) k)) [
    | inl same ↦ absurd (cc (rw same at h))
    | inr other ↦
        let (mine, on) = o.held k u (rw other at h) in
        (
          mine,
          still_holds s w u p on (λ yes.
              absurd
                (cc (other, (equal_iff _ _).1 (ap (Gate.key calls) ((==_iff w u).0 yes) ∙ mine)))),
        )
  ]

  pub init-Owned : Owned (Gate.init calls)
  init-Owned = record { kept = λ w h. absurd (cc h); held = λ k w h. absurd (cc h) }

  pub Step-Owned : {s t : Gate.State} → Gate.Step calls s t → Owned s → Owned t
  Step-Owned {s} (Gate.moves w {p = p} m) o = record {
    kept = λ v h. kept-moves s w v p (Move-Holding m) refl refl o h;
    held = λ k u h. held-moves s w k u p (Move-Holding m) refl refl o h;
  }
  Step-Owned (Gate.caches w b e) o = record { kept = o.kept; held = o.held }
  Step-Owned Gate.closes o = record { kept = o.kept; held = o.held }

  pub Run-Owned : {s t : Gate.State} → Gate.Run calls s t → Owned s → Owned t
  Run-Owned Gate.none_yet o = o
  Run-Owned (Gate.later r st) o = Step-Owned st (Run-Owned r o)

-- In every state that the workers reach, at most one of the workers with the same key is behind the
-- gate.
pub Run-exclusive :
    (calls : ℕ → Gate.Call) (s : Gate.State) (v w : ℕ)
    → Gate.Run calls (Gate.init calls) s
    → v ≢ w
    → Gate.key calls v ≡ Gate.key calls w
    → Gate.holds (s.pc v) ≡ true
    → Gate.holds (s.pc w) ≡ false
Run-exclusive calls s v w r other same on = elim (Bool-cases (Gate.holds (s.pc w))) [
  | inr off ↦ off
  | inl both ↦
      let o = Run-Owned calls r (init-Owned calls) in
      absurd (other (first calls v w (ground (arith, o.kept v on, o.kept w both, same))))
]
