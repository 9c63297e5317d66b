-- ===== src/SlidingWindow/Sums.antt =====
-- A dict that holds the sum of each node over the entries of the window.
use dual_map.Prelude.{
  by_cases_of, by_cases, ℕ, ◌≡◌, ◌≢◌, refl, sym, ap, ◌∙◌, true, false, none, some, Option, List, [],
  ◌∷◌, ◌++◌, ℤ, pos, ◌+ℤ◌, ◌-ℤ◌, ◌≤ℤ◌, leb_ℤ, ◌==◌, if◌then◌else◌, All, arith, int_laws,
  parts_of_eq, Bool-cases, inl, inr,
}
use mathlib.Core.Path.{subst}
use dual_map.SlidingWindow.{Dict, at, set, forget, rename, Entry, renamed}

abbrev pub sum_at : ℕ → (ℕ → ℤ) → List Entry → ℤ
sum_at node f [] = pos 0
sum_at node f (e ∷ l) = if e.node == node then f e.leaf +ℤ sum_at node f l else sum_at node f l

-- The dict has the sum of each node.
abbrev pub Tracks : (ℕ → ℤ) → List Entry → Dict → Type 0
Tracks f l d = (node : ℕ) → at d node ≡ sum_at node f l

zero_plus : (a : ℤ) → a ≡ a +ℤ pos 0
zero_plus a = omega int_laws

plus_assoc : (a b c : ℤ) → a +ℤ (b +ℤ c) ≡ (a +ℤ b) +ℤ c
plus_assoc a b c = omega int_laws

swap_last : (a b c : ℤ) → a ≡ b → a +ℤ c ≡ b +ℤ (c +ℤ pos 0)
swap_last a b c e = omega (int_laws, parts_of_eq e)

pub at_most : (a : ℤ) → leb_ℤ a (pos 0) ≡ true → a ≤ℤ pos 0
at_most a h = ground arith

take_first : (a b c : ℤ) → a ≡ c +ℤ b → a -ℤ c ≡ b
take_first a b c e = omega (int_laws, parts_of_eq e)

sum_at-append :
    (node : ℕ) (f : ℕ → ℤ) (l m : List Entry)
    → sum_at node f (l ++ m) ≡ sum_at node f l +ℤ sum_at node f m
sum_at-append node f [] m = omega int_laws
sum_at-append node f (e ∷ l) m = elim (Bool-cases (e.node == node)) [
  | inl h ↦ rw h (
      ap (λ s. f e.leaf +ℤ s) (sum_at-append node f l m)
      ∙ plus_assoc (f e.leaf) (sum_at node f l) (sum_at node f m))
  | inr h ↦ rw h (sum_at-append node f l m)
]

abbrev value_of : Option ℤ → ℤ
value_of o = elim o [ none ↦ pos 0 | some v ↦ v ]

pub append-Tracks :
    (f : ℕ → ℤ) (l : List Entry) (e : Entry) (d : Dict)
    → Tracks f l d
    → Tracks f (l ++ e ∷ []) (set e.node (at d e.node +ℤ f e.leaf) d)
append-Tracks f l e d t node =
    by_cases_of (λ o. value_of o ≡ sum_at node f (l ++ e ∷ [])) (node == e.node)
      (λ h.
        let same : e.node ≡ node = ground arith in
        let tail : sum_at node f (e ∷ []) ≡ f e.leaf +ℤ pos 0 =
          by_cases_of (λ s. s ≡ f e.leaf +ℤ pos 0) (e.node == node) (λ _. refl)
            (λ g. absurd (ground arith)) in
        swap_last (at d e.node) (sum_at node f l) (f e.leaf)
          (subst (λ n. at d n ≡ sum_at node f l) (sym same) (t node))
        ∙ sym (sum_at-append node f l (e ∷ []) ∙ ap (λ s. sum_at node f l +ℤ s) tail))
      (λ h.
        let tail : sum_at node f (e ∷ []) ≡ pos 0 =
          by_cases_of (λ s. s ≡ pos 0) (e.node == node) (λ g. absurd (ground arith)) (λ _. refl) in
        t node
        ∙ zero_plus (sum_at node f l)
        ∙ sym (sum_at-append node f l (e ∷ []) ∙ ap (λ s. sum_at node f l +ℤ s) tail))

pub take-Tracks :
    (f : ℕ → ℤ) (l : List Entry) (e : Entry) (d : Dict)
    → Tracks f (e ∷ l) d
    → Tracks f l (set e.node (at d e.node -ℤ f e.leaf) d)
take-Tracks f l e d t node =
    by_cases_of (λ o. value_of o ≡ sum_at node f l) (node == e.node)
      (λ h.
        let same : node ≡ e.node = ground arith in
        let g : (e.node == node) ≡ true = ground arith in
        take_first (at d e.node) (sum_at node f l) (f e.leaf)
          (subst (λ n. at d n ≡ f e.leaf +ℤ sum_at node f l) same (rw g at (t node))))
      (λ h. let g : (e.node == node) ≡ false = ground arith in rw g at (t node))

pub forget-Tracks :
    (f : ℕ → ℤ) (k : ℕ) (l : List Entry) (d : Dict)
    → sum_at k f l ≡ pos 0
    → Tracks f l d
    → Tracks f l (forget k d)
forget-Tracks f k l d z t node =
    by_cases_of (λ o. value_of o ≡ sum_at node f l) (node == k)
      (λ h.
        let same : node ≡ k = ground arith in subst (λ n. pos 0 ≡ sum_at n f l) (sym same) (sym z))
      (λ _. t node)

-- A node without entries.
abbrev pub IsAbsent : ℕ → List Entry → Type 0
IsAbsent k = All (λ e. e.node ≢ k)

pub IsAbsent-sum_at : (f : ℕ → ℤ) (k : ℕ) (l : List Entry) → IsAbsent k l → sum_at k f l ≡ pos 0
IsAbsent-sum_at f k [] a = refl
IsAbsent-sum_at f k (e ∷ l) (h, a) =
    by_cases_of (λ s. s ≡ pos 0) (e.node == k) (λ s. absurd (ground arith))
      (λ _. IsAbsent-sum_at f k l a)

module _ (f : ℕ → ℤ) (positive : (leaf : ℕ) → pos 1 ≤ℤ f leaf) where
  sum_at-nonnegative : (k : ℕ) (l : List Entry) → pos 0 ≤ℤ sum_at k f l
  sum_at-nonnegative k [] = omega arith
  sum_at-nonnegative k (e ∷ l) =
      by_cases (λ s. pos 0 ≤ℤ s) (e.node == k)
        (omega (int_laws, positive e.leaf, sum_at-nonnegative k l)) (sum_at-nonnegative k l)

  pub sum_at-IsAbsent : (k : ℕ) (l : List Entry) → sum_at k f l ≤ℤ pos 0 → IsAbsent k l
  sum_at-IsAbsent k [] h = tt
  sum_at-IsAbsent k (e ∷ l) h = elim (Bool-cases (e.node == k)) [
    | inl same ↦
        let sum : f e.leaf +ℤ sum_at k f l ≤ℤ pos 0 = rw same at h in
        absurd (omega (int_laws, positive e.leaf, sum_at-nonnegative k l, sum))
    | inr other ↦ (ground arith, sum_at-IsAbsent k l (rw other at h))
  ]

sum_at-renamed :
    (f : ℕ → ℤ) (old new node : ℕ) (l : List Entry)
    → IsAbsent new l
    → sum_at node f (renamed old new l)
      ≡ (if node == new then sum_at old f l else if node == old then pos 0 else sum_at node f l)
sum_at-renamed f old new node [] a = ground arith
sum_at-renamed f old new node (e ∷ l) (h, a) = ground (arith, sum_at-renamed f old new node l a)

pub renamed-Tracks :
    (f : ℕ → ℤ) (old new : ℕ) (l : List Entry) (d : Dict)
    → IsAbsent new l
    → Tracks f l d
    → Tracks f (renamed old new l) (rename old new d)
renamed-Tracks f old new l d a t node =
    by_cases_of (λ o. value_of o ≡ sum_at node f (renamed old new l)) (node == new)
      (λ h. t old ∙ sym (sum_at-renamed f old new node l a ∙ rw h refl))
      (λ h.
        by_cases_of (λ o. value_of o ≡ sum_at node f (renamed old new l)) (node == old)
          (λ g. sym (sum_at-renamed f old new node l a ∙ rw h (rw g refl)))
          (λ g. t node ∙ sym (sum_at-renamed f old new node l a ∙ rw h (rw g refl))))
