-- ===== src/Session/Dispatches.antt =====
-- wasm-gpu/src/session.rs (`run`): the split of the arguments into dispatches loses and repeats
-- nothing.
use wasm_gpu.Prelude.{
  ℕ, zero, suc, ◌+◌, ◌-◌, ◌*◌, ◌/◌, ◌^◌, ◌<◌, ◌≤◌, ◌≡◌, ◌⊎◌, refl, sym, ◌∙◌, ap, true, false,
  Option, List, [], none, ◌↔◌, ◌∷◌, ◌++◌, some, length, take, drop, length-take, length-drop, All,
  arith, min, ltb, ltb→lt, Bool-cases, inl, inr,
}
use wasm_gpu.Session.{Dispatch, dispatch_at, dispatches_from, dispatches}

module _ {A : Type 0} where
  pub all_args : List (Dispatch A) → List A
  all_args [] = []
  all_args (d ∷ ds) = d.args ++ all_args ds

  take-append-drop_at :
      (s k m : ℕ) (xs : List A) → m ≡ s + k → take k (drop s xs) ++ drop m xs ≡ drop s xs
  take-append-drop_at zero zero zero xs h = refl
  take-append-drop_at zero zero (suc m) xs h = absurd (omega arith)
  take-append-drop_at zero (suc k) zero xs h = absurd (omega arith)
  take-append-drop_at zero (suc k) (suc m) [] h = refl
  take-append-drop_at zero (suc k) (suc m) (x ∷ xs) h =
      ap (◌∷◌ x) (take-append-drop_at zero k m xs (omega arith))
  take-append-drop_at (suc s) k zero xs h = absurd (omega arith)
  take-append-drop_at (suc s) zero (suc m) [] h = refl
  take-append-drop_at (suc s) (suc k) (suc m) [] h = refl
  take-append-drop_at (suc s) k (suc m) (x ∷ xs) h = take-append-drop_at s k m xs (omega arith)

  drop_beyond : (n : ℕ) (xs : List A) → length xs ≤ n → drop n xs ≡ []
  drop_beyond zero [] h = refl
  drop_beyond zero (x ∷ xs) h = absurd (omega arith)
  drop_beyond (suc n) [] h = refl
  drop_beyond (suc n) (x ∷ xs) h = drop_beyond n xs (omega arith)

  -- What is left behind a dispatch: the arguments behind its own, or none.
  rest_cases :
      (all : List A) (start k next : ℕ)
      → (next ≡ start + k) ⊎ ((length all ≤ next) × (length all ≤ start + k))
      → take k (drop start all) ++ drop next all ≡ drop start all
  rest_cases all start k next (inl e) = take-append-drop_at start k next all e
  rest_cases all start k next (inr (h, h')) =
      ap (λ l. take k (drop start all) ++ l)
        (drop_beyond next all h ∙ sym (drop_beyond (start + k) all h'))
      ∙ take-append-drop_at start k (start + k) all refl

  -- A dispatch serves at least one invocation, no more than its workgroups hold, and has no more
  -- workgroups than a number.
  abbrev pub IsFilled : ℕ → Dispatch A → Type 0
  IsFilled max_invocations d =
      (0 < length d.args)
      × (length d.args ≤ d.dispatch_count * 256)
      × (d.dispatch_count ≤ max_invocations)

  -- One dispatch: the arguments from its first one on are its own and those of the later ones.
  dispatch_at_lem :
      (all : List A) (total most i : ℕ)
      → 0 < most
      → i < total
      → length all ≤ total * 256
      → total * 256 < length all + 256
      → (d : Dispatch A) × (dispatch_at all total most i ≡ some d)
        × (d.args ++ drop ((i + most) * 256) all ≡ drop (i * 256) all)
        × IsFilled most d
  unfolding dispatch_at
  dispatch_at_lem all total most i pos inside cover tight =
      let count = min (total - i) most in
      let start = i * 256 in
      let stop = min (start + count * 256) (length all) in
      let ordered : ltb stop start ≡ false = ground arith in
      let fits : stop - start ≤ length (drop start all) = omega (arith, length-drop start all) in
      (
        record { dispatch_count = count; args = take (stop - start) (drop start all) },
        rw ordered refl,
        rest_cases all start (stop - start) ((i + most) * 256) (omega arith),
        (
          omega (arith, length-take (stop - start) (drop start all) fits),
          omega (arith, length-take (stop - start) (drop start all) fits),
          omega arith,
        ),
      )

  dispatches_from_lem :
      (fuel : ℕ) (all : List A) (total most i : ℕ)
      → 0 < most
      → total < i + fuel
      → length all ≤ total * 256
      → total * 256 < length all + 256
      → (ds : List (Dispatch A)) × (dispatches_from fuel all total most i ≡ some ds)
        × (all_args ds ≡ drop (i * 256) all)
        × All (IsFilled most) ds
  unfolding dispatches_from all_args
  dispatches_from_lem zero all total most i pos enough cover tight =
      ([], refl, sym (drop_beyond (i * 256) all (omega arith)), tt)
  dispatches_from_lem (suc fuel) all total most i pos enough cover tight =
      elim (Bool-cases (ltb i total)) [
        | inr done ↦ rw done ([], refl, sym (drop_beyond (i * 256) all (ground arith)), tt)
        | inl more ↦
            let (d, first, joined, filled) =
              dispatch_at_lem all total most i pos (ltb→lt i total more) cover tight in
            let (ds, later, rest, all_filled) =
              dispatches_from_lem fuel all total most (i + most) pos (omega arith) cover tight in
            (
              d ∷ ds,
              rw (more, first, later) refl,
              ap (λ l. d.args ++ l) rest ∙ joined,
              (filled, all_filled),
            )
      ]

some_ne_none {ℓ} : {A : Type ℓ} {o : Option A} {a : A} → o ≡ some a → o ≡ none → ⊥
some_ne_none p q = cc (p, q)

asserted :
    {A : Type 0} (f32_ceil_div : ℕ → ℕ) (max_invocations : ℕ) (all : List A)
    → 0 < max_invocations
    → dispatches f32_ceil_div max_invocations all
      ≡ dispatches_from
          (suc (f32_ceil_div (length all)))
          all
          (f32_ceil_div (length all))
          max_invocations
          0
unfolding dispatches
asserted f32_ceil_div max_invocations all h =
    let passed : ltb 0 max_invocations ≡ true = ground arith in rw passed refl

-- The assertion on `max_invocations` fails, and nothing is dispatched, exactly if it is 0. Otherwise the
-- dispatches serve every invocation once, in order: their arguments put together are all arguments, none
-- panics, each serves at least one invocation and at most 256 for each of its workgroups, and has at most
-- `max_invocations` workgroups. The source passes the device's limit on the invocations of one workgroup
-- for that number. The number of workgroups that the program computes with floats is taken to be exact,
-- as it is below 2 ^ 24 arguments.
pub dispatches_cover :
    {A : Type 0} (f32_ceil_div : ℕ → ℕ) (max_invocations : ℕ) (all : List A)
    → ((n : ℕ) → n < 2 ^ 24 → f32_ceil_div n ≡ (n + 255) / 256)
    → length all < 2 ^ 24
    → ((dispatches f32_ceil_div max_invocations all ≡ none) ↔ (max_invocations ≡ 0))
      × ((max_invocations ≡ 0)
          ⊎ ((ds : List (Dispatch A)) × (dispatches f32_ceil_div max_invocations all ≡ some ds)
              × (all_args ds ≡ all)
              × All (IsFilled max_invocations) ds))
unfolding dispatches
dispatches_cover f32_ceil_div zero all exact small = ((λ e. refl, λ e. refl), inl refl)
dispatches_cover f32_ceil_div (suc most) all exact small =
    let total = f32_ceil_div (length all) in
    let count : total ≡ (length all + 255) / 256 = exact (length all) small in
    let (ds, done, joined, filled) =
      dispatches_from_lem (suc total) all total (suc most) 0 (omega arith) (omega arith)
        (omega arith) (omega arith) in
    let opened = asserted f32_ceil_div (suc most) all (omega arith) in
    (
      (λ e. absurd (some_ne_none done (sym opened ∙ e)), λ e. absurd (omega (arith, e))),
      inr (ds, opened ∙ done, joined, filled),
    )
