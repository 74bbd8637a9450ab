-- ===== src/Run/Validation.antt =====
-- agent-runtime.ts, `validateToolNames`: name collisions are construction faults.
use ephemeral_agent.Common.{
  ℕ, ◌+◌, ◌≤◌, String, ◌≡◌, refl, sym, subst, ◌≢◌, ◌↔◌, inl, inr, Bool, true, false, ◌||◌, Option,
  none, some, List, [], ◌∷◌, ◌++◌, arith, eq_iff, str_eq, if◌then◌else◌, Bool-cases, str_eq_refl,
  if_intro, one_if, length, select,
}

unfoldable pub has : String → List String → Bool
has n [] = false
has n (m ∷ ms) = let rest = has n ms in if str_eq m n then true else rest

-- `Set.add`.
add : String → List String → List String
unfolding has
add n ms = if has n ms then ms else ms ++ n ∷ []

-- The loop over the tools: the names seen and those seen twice.
scan : List String → List String → List String → List String × List String
unfolding add
scan [] seen duplicated = (seen, duplicated)
scan (n ∷ rest) seen duplicated =
    scan rest (add n seen) (if has n seen then add n duplicated else duplicated)

-- The terminal tool's name joins the check at the end.
with_terminal : Option String → List String × List String → List String
unfolding add
with_terminal none (seen, duplicated) = duplicated
with_terminal (some t) (seen, duplicated) = if has t seen then add t duplicated else duplicated

-- The names reported; the construction throws if there is one.
unfoldable pub duplicated_names : List String → Option String → List String
unfolding scan with_terminal
duplicated_names names terminal = with_terminal terminal (scan names [] [])

abbrev pub count : String → List String → ℕ
count n ms = length (select (str_eq n) ms)

abbrev pub all_names : List String → Option String → List String
all_names names none = names
all_names names (some t) = names ++ t ∷ []

add-ne-nil : (n : String) (ms : List String) → add n ms ≢ []
unfolding add has
add-ne-nil n [] h = cc
add-ne-nil n (m ∷ ms) h = ground arith

has-last : (m n : String) (ms : List String) → has m (ms ++ n ∷ []) ≡ (has m ms || str_eq n m)
unfolding has
has-last m n [] = ground arith
has-last m n (x ∷ ms) = ground (arith, has-last m n ms)

has-add : (m n : String) (ms : List String) → has m (add n ms) ≡ (has m ms || str_eq n m)
unfolding add
has-add m n ms = ground (arith, has-last m n ms, eq_iff n m)

-- A non-empty set of duplicates stays non-empty.
scan-keeps :
    (names seen : List String) (duplicated : List String)
    → duplicated ≢ []
    → (scan names seen duplicated).1 ≢ []
unfolding scan
scan-keeps [] seen duplicated h = h
scan-keeps (n ∷ rest) seen duplicated h = scan-keeps rest (add n seen) _ (
    if_intro (λ (ds : List String). ds ≢ []) (has n seen) _ _ (λ _. add-ne-nil n duplicated)
      (λ _. h))

scan-has :
    (names seen duplicated : List String) (m : String)
    → has m (scan names seen duplicated).0 ≡ (has m seen || has m names)
unfolding scan has
scan-has [] seen duplicated m = ground arith
scan-has (n ∷ rest) seen duplicated m = ground (
  arith,
  scan-has rest (add n seen) (if has n seen then add n duplicated else duplicated) m,
  has-add m n seen,
)

-- The scan reports nothing exactly if every name is new to what was seen before it.
scan_sound :
    (names seen : List String)
    → (scan names seen []).1 ≡ []
    → (m : String) → count m names + one_if (has m seen) ≤ 1
unfolding scan
scan_sound [] seen h m = ground arith
scan_sound (n ∷ rest) seen h m = elim (Bool-cases (has n seen)) [
  | inl b ↦ absurd (scan-keeps rest (add n seen) (add n []) (add-ne-nil n []) (ground arith))
  | inr b ↦ ground (
    arith,
    scan_sound rest (add n seen) (ground arith) m,
    has-add m n seen,
    eq_iff m n,
    eq_iff n m,
  )
]

scan_complete :
    (names seen : List String)
    → ((m : String) → count m names + one_if (has m seen) ≤ 1)
    → (scan names seen []).1 ≡ []
unfolding scan
scan_complete [] seen h = refl
scan_complete (n ∷ rest) seen h = elim (Bool-cases (has n seen)) [
  | inl b ↦ absurd (ground (arith, h n, str_eq_refl n))
  | inr b ↦
      subst (λ (x : Bool). (scan rest (add n seen) (if x then add n [] else [])).1 ≡ []) (sym b)
        (scan_complete rest (add n seen)
          (λ m. ground (arith, h m, has-add m n seen, eq_iff m n, eq_iff n m)))
]

count-last :
    (m t : String) (ms : List String) → count m (ms ++ t ∷ []) ≡ count m ms + one_if (str_eq m t)
count-last m t [] = ground arith
count-last m t (x ∷ ms) = ground (arith, count-last m t ms)

has-count : (m : String) (ms : List String) → has m ms ≡ false → count m ms ≡ 0
unfolding has
has-count m [] h = refl
has-count m (x ∷ ms) h = ground (arith, has-count m ms, eq_iff m x, eq_iff x m)

count-has : (m : String) (ms : List String) → count m ms ≡ 0 → has m ms ≡ false
unfolding has
count-has m [] h = refl
count-has m (x ∷ ms) h = ground (arith, count-has m ms, eq_iff m x, eq_iff x m)

-- No duplicated name is reported exactly if no name occurs twice among the registered tools and
-- the terminal tool together.
pub duplicated_names_iff :
    (names : List String) (terminal : Option String)
    → (duplicated_names names terminal ≡ [])
      ↔ ((m : String) → count m (all_names names terminal) ≤ 1)
unfolding duplicated_names with_terminal has
duplicated_names_iff names none = (
  λ h m. ground (arith, scan_sound names [] h m),
  λ h. scan_complete names [] (λ m. ground (arith, h m)),
)
duplicated_names_iff names (some t) = (
  λ h m. ground (
    arith,
    add-ne-nil t (scan names [] []).1,
    scan_sound names [],
    scan_sound names [] (ground (arith, add-ne-nil t (scan names [] []).1)) m,
    scan-has names [] [] t,
    has-count t names,
    count-last m t names,
    eq_iff m t,
  ),
  λ h. ground (
    arith,
    scan_complete names [] (λ m. ground (arith, h m, count-last m t names)),
    h t,
    count-last t t names,
    str_eq_refl t,
    count-has t names,
    scan-has names [] [] t,
  ),
)
