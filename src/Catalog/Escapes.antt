-- ===== src/Catalog/Escapes.antt =====
-- Escapes in a pattern: how `push_filter` tells wildcards from names, and what is left of a name.
use stackable_odbc_trino.Base.{
  ℕ, ◌≡◌, refl, ◌≢◌, ◌∙◌, ap, Bool, true, false, not, ◌&&◌, List, [], ◌∷◌, inl, inr, arith, ◌==◌,
  if◌then◌else◌, Bool-cases,
}
use stackable_odbc_trino.Base.Text.{Text, eq_text}
use stackable_odbc_trino.Params.Literal.{quote, double_quotes}
use stackable_odbc_trino.Catalog.Patterns.{
  backslash, is_wildcard, wildcard_behind, has_odbc_wildcards, unescape, unescaped,
}
use stackable_odbc_trino.Catalog.Reader.{
  Item, any_run, any_one, exact, Plain, matches, print_with, print,
}

unescape_other :
    (d c : ℕ) (s : Text) → (c == backslash) ≡ false → unescape d (c ∷ s) ≡ c ∷ unescape d s
unfolding unescape
unescape_other d c [] h = refl
unescape_other d c (e ∷ s) h = rw h

unescape_hit :
    (d c : ℕ) (s : Text) → (c == d) ≡ true → unescape d (backslash ∷ c ∷ s) ≡ c ∷ unescape d s
unfolding unescape
unescape_hit d c s h = ground arith

unescape_miss :
    (d c : ℕ) (s : Text)
    → (c == d) ≡ false
    → (c == backslash) ≡ false
    → unescape d (backslash ∷ c ∷ s) ≡ backslash ∷ c ∷ unescape d s
unescape_miss d c s h k =
    let first : unescape d (backslash ∷ c ∷ s) ≡ backslash ∷ unescape d (c ∷ s) =
      unfold unescape in rw h in
    first ∙ ap (λ t. backslash ∷ t) (unescape_other d c s k)

-- The set without one of its characters.
abbrev pub without : ℕ → (ℕ → Bool) → ℕ → Bool
without d escapes c = escapes c && not (c == d)

abbrev pub Wildcards : (ℕ → Bool) → Type 0
Wildcards escapes = (c : ℕ) → escapes c ≡ true → is_wildcard c ≡ true

unescape_exact :
    (d c : ℕ) (escapes : ℕ → Bool) (rest out : Text)
    → is_wildcard d ≡ true
    → Wildcards escapes
    → c ≢ backslash
    → unescape d (double_quotes rest) ≡ double_quotes out
    → unescape d (double_quotes (if escapes c then backslash ∷ c ∷ rest else c ∷ rest))
      ≡ double_quotes (if without d escapes c then backslash ∷ c ∷ out else c ∷ out)
unfolding double_quotes
unescape_exact d c escapes rest out wild only plain h =
    let k : (c == backslash) ≡ false = ground arith in
    elim (Bool-cases (escapes c)) [
      | inl e ↦
          let q : (c == quote) ≡ false = ground (arith, only c e) in
          elim (Bool-cases (c == d)) [
            | inl same ↦ rw (e, same, q, unescape_hit d c _ same, h)
            | inr differs ↦ rw (e, differs, q, unescape_miss d c _ differs k, h)
          ]
      | inr e ↦ elim (Bool-cases (c == quote)) [
        | inl q ↦ rw (e, q, unescape_other d quote _ refl, unescape_other d c _ k, h)
        | inr q ↦ rw (e, q, unescape_other d c _ k, h)
      ]
    ]

-- Unescaping one wildcard takes its escapes away and leaves everything else, quotes included.
unescape-print :
    (d : ℕ) (escapes : ℕ → Bool) (p : List Item)
    → is_wildcard d ≡ true
    → Wildcards escapes
    → Plain p
    → unescape d (double_quotes (print_with escapes p))
      ≡ double_quotes (print_with (without d escapes) p)
unfolding print_with double_quotes
unescape-print d escapes [] wild only plain = unfold unescape in refl
unescape-print d escapes (any_run ∷ p) wild only (_, plain) =
    unescape_other d b'%' _ refl ∙ ap (λ t. b'%' ∷ t) (unescape-print d escapes p wild only plain)
unescape-print d escapes (any_one ∷ p) wild only (_, plain) =
    unescape_other d b'_' _ refl ∙ ap (λ t. b'_' ∷ t) (unescape-print d escapes p wild only plain)
unescape-print d escapes (exact c ∷ p) wild only (own, plain) =
    unescape_exact d c escapes _ _ wild only own (unescape-print d escapes p wild only plain)

not_both : {b : Bool} → b ≡ false → b ≡ true → ⊥
not_both h k = cc

wildcard_behind_quotes :
    (c : ℕ) (escaped : Bool) (s : Text)
    → c ≢ backslash
    → (is_wildcard c ≡ true → escaped ≡ true)
    → wildcard_behind escaped (double_quotes (c ∷ s)) ≡ wildcard_behind false (double_quotes s)
unfolding double_quotes wildcard_behind
wildcard_behind_quotes c escaped s own h = elim (Bool-cases (c == quote)) [
  | inl q ↦ ground arith
  | inr q ↦ ground (arith, h)
]

-- The pattern has a wildcard.
unfoldable pub has_wild : List Item → Bool
has_wild [] = false
has_wild (any_run ∷ p) = true
has_wild (any_one ∷ p) = true
has_wild (exact c ∷ p) = has_wild p

-- What the test on the doubled text finds is a wildcard of the pattern.
pub has_odbc_wildcards-print :
    (p : List Item) → Plain p → has_odbc_wildcards (double_quotes (print p)) ≡ has_wild p
unfolding has_odbc_wildcards has_wild print_with
has_odbc_wildcards-print [] h = unfold double_quotes in refl
has_odbc_wildcards-print (any_run ∷ p) h = unfold double_quotes in refl
has_odbc_wildcards-print (any_one ∷ p) h = unfold double_quotes in refl
has_odbc_wildcards-print (exact c ∷ p) (own, h) = elim (Bool-cases (is_wildcard c)) [
  | inl e ↦
      rw e (
        unfold double_quotes wildcard_behind in
        wildcard_behind_quotes c true (print p) own (λ _. refl))
      ∙ has_odbc_wildcards-print p h
  | inr e ↦
      rw e (wildcard_behind_quotes c false (print p) own (λ k. absurd (not_both e k)))
      ∙ has_odbc_wildcards-print p h
]

wildcard_behind_name :
    (c : ℕ) (escaped : Bool) (s : Text)
    → c ≢ backslash
    → (is_wildcard c ≡ true → escaped ≡ true)
    → wildcard_behind escaped (c ∷ s) ≡ wildcard_behind false s
unfolding wildcard_behind
wildcard_behind_name c escaped s own h = ground (arith, h)

-- What the test on the text as it is finds is a wildcard of the pattern.
pub has_odbc_wildcards-name : (p : List Item) → Plain p → has_odbc_wildcards (print p) ≡ has_wild p
unfolding has_odbc_wildcards has_wild print_with
has_odbc_wildcards-name [] h = refl
has_odbc_wildcards-name (any_run ∷ p) h = refl
has_odbc_wildcards-name (any_one ∷ p) h = refl
has_odbc_wildcards-name (exact c ∷ p) (own, h) = elim (Bool-cases (is_wildcard c)) [
  | inl e ↦
      rw e (unfold wildcard_behind in wildcard_behind_name c true (print p) own (λ _. refl))
      ∙ has_odbc_wildcards-name p h
  | inr e ↦
      rw e (wildcard_behind_name c false (print p) own (λ k. absurd (not_both e k)))
      ∙ has_odbc_wildcards-name p h
]

-- The text that a pattern without wildcards is meant as.
abbrev pub name_of : List Item → Text
name_of = print_with (λ c. false)

print_with_none :
    (escapes : ℕ → Bool) (p : List Item)
    → ((c : ℕ) → escapes c ≡ false)
    → print_with escapes p ≡ name_of p
unfolding print_with
print_with_none escapes [] h = refl
print_with_none escapes (any_run ∷ p) h = ap (λ t. b'%' ∷ t) (print_with_none escapes p h)
print_with_none escapes (any_one ∷ p) h = ap (λ t. b'_' ∷ t) (print_with_none escapes p h)
print_with_none escapes (exact c ∷ p) h = rw (h c) (ap (λ t. c ∷ t) (print_with_none escapes p h))

both_taken : (c : ℕ) → without b'%' (without b'_' is_wildcard) c ≡ false
both_taken c = ground arith

without_wild : (d : ℕ) (escapes : ℕ → Bool) → Wildcards escapes → Wildcards (without d escapes)
without_wild d escapes only c h = ground (arith, only c)

-- Both replacements leave the name, with its quotes doubled.
pub unescaped-print :
    (p : List Item) → Plain p → unescaped (double_quotes (print p)) ≡ double_quotes (name_of p)
unfolding unescaped
unescaped-print p plain = rw (unescape-print b'_' is_wildcard p refl (λ c h. h) plain) (
    unescape-print b'%' (without b'_' is_wildcard) p refl (without_wild b'_' is_wildcard (λ c h. h))
      plain
    ∙ ap double_quotes (print_with_none _ p both_taken))

unescape-name :
    (d : ℕ) (escapes : ℕ → Bool) (p : List Item)
    → Plain p
    → unescape d (print_with escapes p) ≡ print_with (without d escapes) p
unfolding print_with
unescape-name d escapes [] plain = unfold unescape in refl
unescape-name d escapes (any_run ∷ p) (_, plain) =
    unescape_other d b'%' _ refl ∙ ap (λ t. b'%' ∷ t) (unescape-name d escapes p plain)
unescape-name d escapes (any_one ∷ p) (_, plain) =
    unescape_other d b'_' _ refl ∙ ap (λ t. b'_' ∷ t) (unescape-name d escapes p plain)
unescape-name d escapes (exact c ∷ p) (own, plain) =
    let k : (c == backslash) ≡ false = ground arith in
    let ih = unescape-name d escapes p plain in
    elim (Bool-cases (escapes c)) [
      | inl e ↦ elim (Bool-cases (c == d)) [
        | inl same ↦ rw (e, same, unescape_hit d c _ same, ih)
        | inr differs ↦ rw (e, differs, unescape_miss d c _ differs k, ih)
      ]
      | inr e ↦ rw (e, unescape_other d c _ k, ih)
    ]

pub unescaped-name : (p : List Item) → Plain p → unescaped (print p) ≡ name_of p
unfolding unescaped
unescaped-name p plain =
    rw (unescape-name b'_' is_wildcard p plain)
      (unescape-name b'%' (without b'_' is_wildcard) p plain ∙ print_with_none _ p both_taken)

-- Without wildcards, only the name matches.
pub matches-name :
    (p : List Item) (s : Text) → has_wild p ≡ false → matches p s ≡ eq_text (name_of p) s
unfolding matches has_wild print_with eq_text
matches-name [] [] h = refl
matches-name [] (c ∷ s) h = refl
matches-name (any_run ∷ p) s h = cc
matches-name (any_one ∷ p) s h = cc
matches-name (exact d ∷ p) [] h = refl
matches-name (exact d ∷ p) (c ∷ s) h = rw (matches-name p s h)
