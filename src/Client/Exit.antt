-- ===== src/Client/Exit.antt =====
-- src/client.rs: when `check_exit_edge` gives control back.
use bluecross.Base.{
  ℕ, ◌-◌, ◌≤◌, ◌≡◌, refl, sym, ap, subst, Bool, true, false, some, List, [], ◌∷◌, ℤ, ltb, arith,
  ◌⊎◌, inl, inr, if◌then◌else◌, Bool-cases,
}
use bluecross.Config.{ScreenPosition, left, right, top, bottom, ClientConfig}
use bluecross.Client.State.{
  ClientState, Readings, EdgeTest, edge_test, millis, start_push, end_push, push_edge,
  check_exit_edge,
}

-- The arguments of one call.
pub record Attempt : Type 0 where
  pub t : Readings
  pub x : ℤ
  pub y : ℤ
  pub dx : ℤ
  pub dy : ℤ

abbrev pub attempt : Attempt → ClientState → Bool × ClientState
attempt a s = check_exit_edge a.t a.x a.y a.dx a.dy s

-- The state after these calls, the newest of which stands first.
abbrev pub after : List Attempt → ClientState → ClientState
after [] s = s
after (a ∷ history) s = (attempt a (after history s)).1

abbrev at : Bool → Bool → Bool → EdgeTest
at e f m = record { at_edge = e; pushing_exit = f; moving_away = m }

-- The three ways through the tests of `push_edge`.
push_edge-cases :
    (t : Readings) (s : ClientState) (e f m : Bool)
    → ((e ≡ true)
        × (f ≡ true)
        × (push_edge t (at e f m) s ≡ end_push t.at_elapsed (start_push t.at_start s)))
      ⊎ ((push_edge t (at e f m) s ≡ (false, record s { edge_pushing = false }))
          ⊎ ((e ≡ true) × (m ≡ false) × (push_edge t (at e f m) s ≡ (false, s))))
unfolding push_edge
push_edge-cases t s true true m = inl (refl, refl, refl)
push_edge-cases t s true false true = inr (inl refl)
push_edge-cases t s true false false = inr (inr (refl, refl, refl))
push_edge-cases t s false f true = inr (inl refl)
push_edge-cases t s false f false = inr (inl refl)

module _ (c : ClientConfig) (p : ScreenPosition) (switched : ℕ) where
  abbrev pub test : Attempt → EdgeTest
  test a = edge_test c p a.x a.y a.dx a.dy

  abbrev pub in_grace : Attempt → Bool
  in_grace a = ltb (a.t.at_grace - switched) (millis 200)

  -- The cursor stays at the edge and does not move away from it, or the call comes so soon after
  -- the switch that it is ignored.
  abbrev pub Holds : Attempt → Type 0
  Holds a =
      (in_grace a ≡ true)
      ⊎ ((in_grace a ≡ false) × ((test a).at_edge ≡ true) × ((test a).moving_away ≡ false))

  -- The call pushes against the edge, and reads `start` when it sets the timer.
  abbrev pub Begins : ℕ → Attempt → Type 0
  Begins start a =
      (in_grace a ≡ false)
      × ((test a).at_edge ≡ true)
      × ((test a).pushing_exit ≡ true)
      × (a.t.at_start ≡ start)

  -- The newest calls hold the edge without a break, back to one that began the push at `start`.
  pub data IsPush (start : ℕ) : List Attempt → Type 0 where
    begins : {a : Attempt} {history : List Attempt} → Begins start a → IsPush start (a ∷ history)
    goes_on :
        {a : Attempt} {history : List Attempt}
        → Holds a
        → IsPush start history
        → IsPush start (a ∷ history)

  pub record Fits (s : ClientState) : Type 0 where
    pub config : s.config ≡ c
    pub position : s.position ≡ some p
    pub switch_time : s.switch_time ≡ switched

  -- A push is not a move away.
  pushing-moving_away :
      (q : ScreenPosition) (x y dx dy : ℤ)
      → (edge_test c q x y dx dy).pushing_exit ≡ true
      → (edge_test c q x y dx dy).moving_away ≡ false
  unfolding edge_test
  pushing-moving_away left x y dx dy h = ground arith
  pushing-moving_away right x y dx dy h = ground arith
  pushing-moving_away top x y dx dy h = ground arith
  pushing-moving_away bottom x y dx dy h = ground arith

  attempt-Fits : (a : Attempt) (s : ClientState) → Fits s → Fits (attempt a s).1
  unfolding check_exit_edge
  attempt-Fits a s h = ground arith

  -- With the state's fields known the call is `push_edge`, or is ignored.
  attempt-push_edge :
      (a : Attempt) (s : ClientState)
      → Fits s
      → attempt a s ≡ (if in_grace a then (false, s) else push_edge a.t (test a) s)
  unfolding check_exit_edge
  attempt-push_edge a s h = ground arith

  -- The running timer, if any, was set by a push that still holds.
  abbrev Timed : List Attempt → ClientState → Type 0
  Timed history s = s.edge_pushing ≡ true → IsPush s.edge_push_start history

  start_push-IsPush :
      (history : List Attempt) (a : Attempt) (s : ClientState)
      → in_grace a ≡ false
      → (test a).at_edge ≡ true
      → (test a).pushing_exit ≡ true
      → Timed history s
      → IsPush (start_push a.t.at_start s).edge_push_start (a ∷ history)
  start_push-IsPush history a s g e f k = elim (Bool-cases s.edge_pushing) [
    | inl running ↦
        let old : s.edge_push_start ≡ (start_push a.t.at_start s).edge_push_start = ground arith in
        subst (λ i. IsPush i (a ∷ history)) old
          (goes_on (inr (g, e, pushing-moving_away p a.x a.y a.dx a.dy f)) (k running))
    | inr idle ↦ begins (g, e, f, ground arith)
  ]

  push_edge-Timed :
      (history : List Attempt) (a : Attempt) (s : ClientState)
      → in_grace a ≡ false
      → Timed history s
      → Timed (a ∷ history) (push_edge a.t (test a) s).1
  push_edge-Timed history a s g k =
      let e = test a in
      elim (push_edge-cases a.t s e.at_edge e.pushing_exit e.moving_away) [
        | inl (e₁, e₂, same) ↦
            let start : (start_push a.t.at_start s).edge_push_start
                ≡ (push_edge a.t e s).1.edge_push_start =
              ground (arith, same) in
            λ h. subst (λ i. IsPush i (a ∷ history)) start (start_push-IsPush history a s g e₁ e₂ k)
        | inr (inl same) ↦ λ h. cc (ap (λ (r : Bool × ClientState). r.1.edge_pushing) same)
        | inr (inr (e₁, e₂, same)) ↦
            subst (λ (r : Bool × ClientState). Timed (a ∷ history) r.1) (sym same)
              (λ h. goes_on (inr (g, e₁, e₂)) (k h))
      ]

  attempt-Timed :
      (history : List Attempt) (a : Attempt) (s : ClientState)
      → Fits s
      → Timed history s
      → Timed (a ∷ history) (attempt a s).1
  attempt-Timed history a s f k = elim (Bool-cases (in_grace a)) [
    | inl g ↦
        let same : (false, s) ≡ attempt a s = ground (arith, attempt-push_edge a s f) in
        subst (λ (r : Bool × ClientState). Timed (a ∷ history) r.1) same
          (λ h. goes_on (inl g) (k h))
    | inr g ↦
        let same : push_edge a.t (test a) s ≡ attempt a s =
          ground (arith, attempt-push_edge a s f) in
        subst (λ (r : Bool × ClientState). Timed (a ∷ history) r.1) same
          (push_edge-Timed history a s g k)
  ]

  after-Timed :
      (history : List Attempt) (s : ClientState)
      → Fits s
      → s.edge_pushing ≡ false
      → Fits (after history s) × Timed history (after history s)
  after-Timed [] s f idle = (f, λ h. cc)
  after-Timed (a ∷ history) s f idle =
      let (g, k) = after-Timed history s f idle in
      (attempt-Fits a (after history s) g, attempt-Timed history a (after history s) g k)

  push_edge-leaves :
      (history : List Attempt) (a : Attempt) (s : ClientState)
      → in_grace a ≡ false
      → Timed history s
      → (push_edge a.t (test a) s).0 ≡ true
      → (start : ℕ) × IsPush start (a ∷ history) × (millis 300 ≤ a.t.at_elapsed - start)
  unfolding push_edge
  push_edge-leaves history a s g k h = (
    (start_push a.t.at_start s).edge_push_start,
    start_push-IsPush history a s g (ground arith) (ground arith) k,
    ground arith,
  )

  -- Control goes back only after a push of 300 ms: from a state with no timer running, whatever the
  -- calls before, a call answers yes only if the newest calls, itself included, hold the cursor at
  -- the exit edge without a break since a call that pushed against it, and that one read the clock
  -- at least 300 ms before. The call itself comes 200 ms or more after the switch.
  pub check_exit_edge-IsPush :
      (history : List Attempt) (a : Attempt) (s : ClientState)
      → Fits s
      → s.edge_pushing ≡ false
      → (attempt a (after history s)).0 ≡ true
      → (start : ℕ) × IsPush start (a ∷ history)
        × (millis 300 ≤ a.t.at_elapsed - start)
        × (millis 200 ≤ a.t.at_grace - switched)
  check_exit_edge-IsPush history a s f idle h =
      let (g, k) = after-Timed history s f idle in
      elim (Bool-cases (in_grace a)) [
        | inl e ↦ cc (rw (attempt-push_edge a (after history s) g, e) at h)
        | inr e ↦
            let (start, held, long) =
              push_edge-leaves history a (after history s) e k
                (rw (attempt-push_edge a (after history s) g, e) at h) in
            (start, held, long, ground arith)
      ]
