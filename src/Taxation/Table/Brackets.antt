-- ===== src/Taxation/Table/Brackets.antt =====
-- Which brackets of a rule the table calculator reads, and in which order.
use payroll_management_syste.Prelude.{
  suc, ==_iff, ℕ, String, ◌≡◌, refl, ap, subst, ◌∙◌, ◌⊎◌, inl, inr, true, false, ◌&&◌, Bool, Option,
  none, some, List, [], ◌∷◌, arith, str_eq, str_eq_iff, Bool-cases, Option-cases, length, select,
  find, find-Elem, find_sound, All, Elem, max,
}
use payroll_management_syste.Decimal.{Decimal, le, scaled}
use payroll_management_syste.Taxation.Models.{TaxBracket, TaxRuleVersion, FilingStatus}
use payroll_management_syste.Taxation.Table.{
  brackets_for, order_brackets, insert_bracket, or_else, same_key,
}
use payroll_management_syste.Prelude.Int.{leb_ℤ}

-- The key of the status with the code, or none if no status has it.
abbrev IsChosen : List FilingStatus → String → Option ℕ → Type 0
IsChosen statuses code none = All (λ (x : FilingStatus). str_eq x.code code ≡ false) statuses
IsChosen statuses code (some key) =
    (x : FilingStatus) × Elem x statuses × (x.code ≡ code) × (x.pk ≡ key)

-- No bracket stands right before one with a smaller lower bound.
abbrev AreOrdered : List TaxBracket → Type 0
AreOrdered [] = Unit
AreOrdered (b ∷ []) = Unit
AreOrdered (b ∷ c ∷ cs) = (le b.lower_bound c.lower_bound ≡ true) × AreOrdered (c ∷ cs)

-- The brackets are those of the rule with the status, each as often as the rule has it.
abbrev AreOfStatus : TaxRuleVersion → Option ℕ → List TaxBracket → Type 0
AreOfStatus rule status bs =
    All (λ (b : TaxBracket). b.filing_status ≡ status) bs
    × ((test : TaxBracket → Bool)
        → length (select test bs)
          ≡ length (select (λ b. test b && same_key b.filing_status status) rule.brackets))

-- The brackets of the chosen status, or those without a status if the rule has none of it.
abbrev pub ArePicked : TaxRuleVersion → String → List TaxBracket → Type 0
ArePicked rule code bs =
    (chosen : Option ℕ) × (used : Option ℕ) × IsChosen rule.filing_statuses code chosen
    × ((used ≡ chosen)
        ⊎ ((used ≡ none)
            × All (λ (b : TaxBracket). same_key b.filing_status chosen ≡ false) rule.brackets))
    × AreOfStatus rule used bs
    × AreOrdered bs

same_key_sound : (a b : Option ℕ) → same_key a b ≡ true → a ≡ b
same_key_sound none none h = refl
same_key_sound none (some y) h = cc
same_key_sound (some x) none h = cc
same_key_sound (some x) (some y) h = ap some ((==_iff x y).0 h)

le_total : (a b : Decimal) → le a b ≡ false → le b a ≡ true
le_total a b h =
    let same : max a.scale b.scale ≡ max b.scale a.scale = omega arith in
    let other : leb_ℤ (scaled a (max b.scale a.scale)) (scaled b (max b.scale a.scale)) ≡ false =
      subst (λ s. leb_ℤ (scaled a s) (scaled b s) ≡ false) same h in
    ground arith

insert_bracket-AreOrdered :
    (b : TaxBracket) (cs : List TaxBracket) → AreOrdered cs → AreOrdered (insert_bracket b cs)
unfolding insert_bracket
insert_bracket-AreOrdered b [] h = tt
insert_bracket-AreOrdered b (c ∷ []) h = elim (Bool-cases (le b.lower_bound c.lower_bound)) [
  | inl t ↦ rw t (t, tt)
  | inr f ↦ rw f (le_total b.lower_bound c.lower_bound f, tt)
]
insert_bracket-AreOrdered b (c ∷ d ∷ cs) (first, h) =
    let rest = insert_bracket-AreOrdered b (d ∷ cs) h in
    elim (Bool-cases (le b.lower_bound c.lower_bound)) [
      | inl t ↦ rw t (t, (first, h))
      | inr f ↦
          let back = le_total b.lower_bound c.lower_bound f in
          elim (Bool-cases (le b.lower_bound d.lower_bound)) [
            | inl t ↦ rw (f, t) (back, (t, h))
            | inr g ↦ rw (f, g) (first, (rw g at rest))
          ]
    ]

order_brackets-AreOrdered : (bs : List TaxBracket) → AreOrdered (order_brackets bs)
unfolding order_brackets
order_brackets-AreOrdered [] = tt
order_brackets-AreOrdered (b ∷ bs) =
    insert_bracket-AreOrdered b (order_brackets bs) (order_brackets-AreOrdered bs)

insert_bracket-All :
    (P : TaxBracket → Type 0) (b : TaxBracket) (cs : List TaxBracket)
    → P b
    → All P cs
    → All P (insert_bracket b cs)
unfolding insert_bracket
insert_bracket-All P b [] p ps = (p, tt)
insert_bracket-All P b (c ∷ cs) p (q, qs) = elim (Bool-cases (le b.lower_bound c.lower_bound)) [
  | inl t ↦ rw t (p, (q, qs))
  | inr f ↦ rw f (q, insert_bracket-All P b cs p qs)
]

order_brackets-All :
    (P : TaxBracket → Type 0) (bs : List TaxBracket) → All P bs → All P (order_brackets bs)
unfolding order_brackets
order_brackets-All P [] h = tt
order_brackets-All P (b ∷ bs) (p, ps) =
    insert_bracket-All P b (order_brackets bs) p (order_brackets-All P bs ps)

insert_bracket-counts :
    (test : TaxBracket → Bool) (b : TaxBracket) (cs : List TaxBracket)
    → length (select test (insert_bracket b cs)) ≡ length (select test (b ∷ cs))
unfolding insert_bracket
insert_bracket-counts test b [] = refl
insert_bracket-counts test b (c ∷ cs) =
    let rest = insert_bracket-counts test b cs in
    elim (Bool-cases (le b.lower_bound c.lower_bound)) [
      | inl t ↦ rw t refl
      | inr f ↦ elim (Bool-cases (test b)) [
        | inl p ↦ elim (Bool-cases (test c)) [
          | inl q ↦ rw (f, p, q) (ap suc rest ∙ rw p refl)
          | inr q ↦ rw (f, p, q) (rest ∙ rw p refl)
        ]
        | inr p ↦ elim (Bool-cases (test c)) [
          | inl q ↦ rw (f, p, q) (ap suc rest ∙ rw p refl)
          | inr q ↦ rw (f, p, q) (rest ∙ rw p refl)
        ]
      ]
    ]

order_brackets-counts :
    (test : TaxBracket → Bool) (bs : List TaxBracket)
    → length (select test (order_brackets bs)) ≡ length (select test bs)
unfolding order_brackets
order_brackets-counts test [] = refl
order_brackets-counts test (b ∷ bs) =
    insert_bracket-counts test b (order_brackets bs) ∙ elim (Bool-cases (test b)) [
      | inl p ↦ rw p (ap suc (order_brackets-counts test bs))
      | inr p ↦ rw p (order_brackets-counts test bs)
    ]

selected-All :
    (status : Option ℕ) (bs : List TaxBracket)
    → All
        (λ (b : TaxBracket). b.filing_status ≡ status)
        (select (λ b. same_key b.filing_status status) bs)
selected-All status [] = tt
selected-All status (b ∷ bs) = elim (Bool-cases (same_key b.filing_status status)) [
  | inl t ↦ rw t (same_key_sound b.filing_status status t, selected-All status bs)
  | inr f ↦ rw f (selected-All status bs)
]

selected-counts :
    (test other : TaxBracket → Bool) (bs : List TaxBracket)
    → length (select test (select other bs)) ≡ length (select (λ b. test b && other b) bs)
selected-counts test other [] = refl
selected-counts test other (b ∷ bs) =
    let rest = selected-counts test other bs in
    elim (Bool-cases (other b)) [
      | inl t ↦ elim (Bool-cases (test b)) [
        | inl p ↦ rw (t, p) (ap suc rest)
        | inr p ↦ rw (t, p) rest
      ]
      | inr f ↦ elim (Bool-cases (test b)) [ inl p ↦ rw (f, p) rest | inr p ↦ rw (f, p) rest ]
    ]

none_selected :
    (test : TaxBracket → Bool) (bs : List TaxBracket)
    → select test bs ≡ []
    → All (λ b. test b ≡ false) bs
none_selected test [] h = tt
none_selected test (b ∷ bs) h = elim (Bool-cases (test b)) [
  | inl t ↦ ground arith
  | inr f ↦ (f, none_selected test bs (rw f at h))
]

of_status :
    (rule : TaxRuleVersion) (status : Option ℕ)
    → AreOfStatus rule status
        (order_brackets (select (λ b. same_key b.filing_status status) rule.brackets))
of_status rule status =
    let test = λ (b : TaxBracket). same_key b.filing_status status in
    let bs = select test rule.brackets in
    (
      order_brackets-All (λ b. b.filing_status ≡ status) bs (selected-All status rule.brackets),
      λ t. order_brackets-counts t bs ∙ selected-counts t test rule.brackets,
    )

picked :
    (rule : TaxRuleVersion) (code : String) (chosen : Option ℕ) (bs : List TaxBracket)
    → select (λ b. same_key b.filing_status chosen) rule.brackets ≡ bs
    → IsChosen rule.filing_statuses code chosen
    → ArePicked rule code
        (order_brackets (or_else bs (select (λ b. same_key b.filing_status none) rule.brackets)))
picked rule code chosen [] e is = (
  chosen,
  none,
  is,
  inr (refl, none_selected (λ b. same_key b.filing_status chosen) rule.brackets e),
  of_status rule none,
  order_brackets-AreOrdered _,
)
picked rule code chosen (b ∷ bs) e is = (
  chosen,
  chosen,
  is,
  inl refl,
  subst (λ xs. AreOfStatus rule chosen (order_brackets xs)) e (of_status rule chosen),
  order_brackets-AreOrdered (b ∷ bs),
)

unfound :
    (code : String) (statuses : List FilingStatus)
    → find (λ x. str_eq x.code code) statuses ≡ none
    → All (λ (x : FilingStatus). str_eq x.code code ≡ false) statuses
unfound code [] h = tt
unfound code (x ∷ xs) h = elim (Bool-cases (str_eq x.code code)) [
  | inl t ↦ ground arith
  | inr f ↦ (f, unfound code xs (rw f at h))
]

pub brackets_for-ArePicked :
    (rule : TaxRuleVersion) (code : String) → ArePicked rule code (brackets_for rule code)
unfolding brackets_for
brackets_for-ArePicked rule code =
    let test = λ (x : FilingStatus). str_eq x.code code in
    elim (Option-cases (find test rule.filing_statuses)) [
      | inl absent ↦
          rw absent (picked rule code none _ refl (unfound code rule.filing_statuses absent))
      | inr (x, found) ↦ rw found (
          picked rule code (some x.pk) _ refl (
            x,
            find-Elem test rule.filing_statuses x found,
            (str_eq_iff x.code code).0 (find_sound test rule.filing_statuses x found),
            refl,
          ))
    ]
