-- ===== src/Nickname/Words.antt =====
-- Which words a nickname has (server/src/utils/Nickname.cpp).
use canchat.Base.{
  ℕ, ◌-◌, String, string_eq, str_append, true, not, some, List, get_elem?, all_first,
  get_elem?-all_first, ◌==◌, ◌≡◌, ◌≢◌, refl, arith,
}
use canchat.Nickname.{
  Generator, random, nickname_of, avatars, adjectives, nouns, avatars_size, adjectives_size,
  nouns_size,
}

-- The tables are at least as long as their declared sizes, and within them have not these words.
avatars_there : all_first 70 (λ x. true) avatars ≡ true
unfolding avatars
avatars_there = refl

adjectives_without : all_first 103 (λ x. not (x == "Tiny")) adjectives ≡ true
unfolding adjectives
adjectives_without = refl

nouns_without : all_first 49 (λ x. not (x == "Year")) nouns ≡ true
unfolding nouns
nouns_without = refl

differs : (x y : String) → not (x == y) ≡ true → x ≢ y
differs x y h e = ground (arith, string_eq.same_iff x y)

-- A word of a table.
abbrev pub IsIn : String → List String → Type 0
IsIn x xs = (i : ℕ) × (get_elem? xs i ≡ some x)

-- Every nickname reads three words inside the tables, and is an avatar, an adjective and a noun with
-- spaces between them. But the declared sizes are one too small for two of the tables: the last
-- adjective, "Tiny", and the last noun, "Year", are never drawn.
pub random_words :
    {E : Type 0} (g : Generator E) (e : E)
    → (a j n : String) × ((random g e).0
        ≡ some (str_append a (str_append " " (str_append j (str_append " " n)))))
      × IsIn a avatars
      × IsIn j adjectives
      × IsIn n nouns
      × (j ≢ "Tiny")
      × (n ≢ "Year")
unfolding random nickname_of
random_words g e =
    let (x, e1) = g.uniform 0 (avatars_size - 1) e in
    let (y, e2) = g.uniform 0 (adjectives_size - 1) e1 in
    let (z, e3) = g.uniform 0 (nouns_size - 1) e2 in
    let (a, ha, ta) =
      get_elem?-all_first avatars_size x (λ w. true) avatars avatars_there
        (omega (arith, g.in_range 0 69 e (omega arith))) in
    let (j, hj, tj) =
      get_elem?-all_first adjectives_size y (λ w. not (w == "Tiny")) adjectives adjectives_without
        (omega (arith, g.in_range 0 102 e1 (omega arith))) in
    let (n, hn, tn) =
      get_elem?-all_first nouns_size z (λ w. not (w == "Year")) nouns nouns_without
        (omega (arith, g.in_range 0 48 e2 (omega arith))) in
    (a, j, n, rw (ha, hj, hn), (x, ha), (y, hj), (z, hn), differs j "Tiny" tj, differs n "Year" tn)

last_words :
    (get_elem? adjectives adjectives_size ≡ some "Tiny")
    × (get_elem? nouns nouns_size ≡ some "Year")
unfolding adjectives nouns
last_words = (refl, refl)
