-- ===== src/Llm/Schema/Order.antt =====
-- internal/llm/schema.go: the list of the required members, told from its order and from how often
-- it has each name.
use cloud_sre_agent.Prelude.{
  ℕ, ◌+◌, ◌<◌, ◌≡◌, refl, sym, ap, ◌∙◌, true, inl, inr, List, [], ◌∷◌, Text, text_eq, text_eq_iff,
  text_leb, if◌then◌else◌, All, Bool-cases, arith,
}
use cloud_sre_agent.Prelude.Json.{string, array, Items, nil, cons, Fields, end, field}
use cloud_sre_agent.Detect.Services.{insert_text, sort_texts}
use cloud_sre_agent.Detect.Laws.Affected.{
  text_leb_antisym, text_leb_total, text_leb_trans, All-insert_text,
}
use cloud_sre_agent.Llm.Schema.{texts, keys_of, required_of}

-- The names as the items of an array.
unfoldable pub quoted : List Text → Items
quoted [] = nil
quoted (s ∷ ss) = cons (string s) (quoted ss)

-- The names of the members.
unfoldable pub names_of : Fields → List Text
names_of end = []
names_of (field k v fs) = k ∷ names_of fs

unfoldable pub count : Text → List Text → ℕ
count x [] = 0
count x (s ∷ ss) = (if text_eq x s then 1 else 0) + count x ss

-- In the order of bytes.
abbrev pub IsOrdered : List Text → Type 0
IsOrdered [] = Unit
IsOrdered (s ∷ ss) = All (λ t. text_leb s t ≡ true) ss × IsOrdered ss

-- The first list is in order, and has each name as often as the second.
abbrev pub IsOrderOf : List Text → List Text → Type 0
IsOrderOf names all = IsOrdered names × ((x : Text) → count x names ≡ count x all)

count-insert_text : (x s : Text) (ss : List Text) → count x (insert_text s ss) ≡ count x (s ∷ ss)
unfolding insert_text count
count-insert_text x s [] = refl
count-insert_text x s (t ∷ ts) = elim (Bool-cases (text_leb s t)) [
  | inl before ↦ rw before refl
  | inr after ↦ rw after (omega (arith, count-insert_text x s ts))
]

count-sort_texts : (x : Text) (ss : List Text) → count x (sort_texts ss) ≡ count x ss
unfolding sort_texts count
count-sort_texts x [] = refl
count-sort_texts x (s ∷ ss) =
    count-insert_text x s (sort_texts ss)
    ∙ ap (λ n. (if text_eq x s then 1 else 0) + n) (count-sort_texts x ss)

All-above :
    (s t : Text) (ts : List Text)
    → text_leb s t ≡ true
    → All (λ u. text_leb t u ≡ true) ts
    → All (λ u. text_leb s u ≡ true) ts
All-above s t [] h all = tt
All-above s t (u ∷ us) h (p, all) = (text_leb_trans s t u h p, All-above s t us h all)

insert_text-IsOrdered : (s : Text) (ss : List Text) → IsOrdered ss → IsOrdered (insert_text s ss)
unfolding insert_text
insert_text-IsOrdered s [] h = (tt, tt)
insert_text-IsOrdered s (t ∷ ts) (above, h) = elim (Bool-cases (text_leb s t)) [
  | inl before ↦ rw before ((before, All-above s t ts before above), (above, h))
  | inr after ↦ rw after (
    All-insert_text (λ u. text_leb t u ≡ true) s ts (text_leb_total s t after) above,
    insert_text-IsOrdered s ts h,
  )
]

sort_texts-IsOrdered : (ss : List Text) → IsOrdered (sort_texts ss)
unfolding sort_texts
sort_texts-IsOrdered [] = tt
sort_texts-IsOrdered (s ∷ ss) = insert_text-IsOrdered s (sort_texts ss) (sort_texts-IsOrdered ss)

pub sort_texts-IsOrderOf : (ss : List Text) → IsOrderOf (sort_texts ss) ss
sort_texts-IsOrderOf ss = (sort_texts-IsOrdered ss, λ x. count-sort_texts x ss)

count_above :
    (t s : Text) (ss : List Text)
    → All (λ u. text_leb t u ≡ true) ss
    → 0 < count s ss
    → text_leb t s ≡ true
unfolding count
count_above t s [] h some = absurd (omega arith)
count_above t s (u ∷ us) (p, h) some = elim (Bool-cases (text_eq s u)) [
  | inl same ↦ ap (text_leb t) ((text_eq_iff s u).0 same) ∙ p
  | inr other ↦ count_above t s us h (omega (arith, rw other at some))
]

text_leb_refl : (s : Text) → text_leb s s ≡ true
text_leb_refl s = elim (Bool-cases (text_leb s s)) [ inl h ↦ h | inr h ↦ text_leb_total s s h ]

count_first : (s : Text) (ss : List Text) → 0 < count s (s ∷ ss)
unfolding count
count_first s ss = ground (arith, text_eq_iff s s)

count_nil : (x : Text) → count x [] ≡ 0
unfolding count
count_nil x = refl

count-tail :
    (x s t : Text) (a b : List Text)
    → s ≡ t
    → count x (s ∷ a) ≡ count x (t ∷ b)
    → count x a ≡ count x b
unfolding count
count-tail x s t a b heads same =
    let firsts = ap {B = ℕ} (λ u. if text_eq x u then 1 else 0) heads in omega (arith, firsts, same)

IsOrdered-unique :
    (a b : List Text) → IsOrdered a → IsOrdered b → ((x : Text) → count x a ≡ count x b) → a ≡ b
IsOrdered-unique [] [] _ _ same = refl
IsOrdered-unique [] (t ∷ b) _ _ same = absurd (omega (arith, count_first t b, same t, count_nil t))
IsOrdered-unique (s ∷ a) [] _ _ same = absurd (omega (arith, count_first s a, same s, count_nil s))
IsOrdered-unique (s ∷ a) (t ∷ b) (above, h) (above', h') same =
    let s_in : 0 < count s (t ∷ b) = omega (arith, count_first s a, same s) in
    let t_in : 0 < count t (s ∷ a) = omega (arith, count_first t b, same t) in
    let heads : s ≡ t =
      text_leb_antisym s t (count_above s t (s ∷ a) (text_leb_refl s, above) t_in)
        (count_above t s (t ∷ b) (text_leb_refl t, above') s_in) in
    let tails = IsOrdered-unique a b h h' (λ x. count-tail x s t a b heads (same x)) in
    λ i. heads i ∷ tails i

texts_lem : (ss : List Text) → texts ss ≡ quoted ss
unfolding texts quoted
texts_lem [] = refl
texts_lem (s ∷ ss) = ap (cons (string s)) (texts_lem ss)

keys_of_lem : (fs : Fields) → keys_of fs ≡ names_of fs
unfolding keys_of names_of
keys_of_lem end = refl
keys_of_lem (field k v fs) = ap (λ ks. k ∷ ks) (keys_of_lem fs)

pub required_of_lem :
    (props : Fields) → required_of props ≡ array (quoted (sort_texts (names_of props)))
unfolding required_of
required_of_lem props =
    ap array (texts_lem (sort_texts (keys_of props)))
    ∙ ap (λ ks. array (quoted (sort_texts ks))) (keys_of_lem props)

-- There is only one list of all the properties in order.
pub required_of_unique :
    (props : Fields) (names : List Text)
    → IsOrderOf names (names_of props)
    → array (quoted names) ≡ required_of props
required_of_unique props names (ordered, same) =
    let (ordered', same') = sort_texts-IsOrderOf (names_of props) in
    ap (λ ns. array (quoted ns))
      (IsOrdered-unique names (sort_texts (names_of props)) ordered ordered'
        (λ x. same x ∙ sym (same' x)))
    ∙ sym (required_of_lem props)
