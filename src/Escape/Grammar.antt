-- ===== src/Escape/Grammar.antt =====
-- A grammar of arguments, and how `split_args` reads them.
use mathlib.Core.Path.{subst}
use stackable_odbc_trino.Base.{
  ℕ, zero, suc, ◌≡◌, refl, sym, ap, ◌∙◌, ◌+◌, ◌≢◌, ◌⊎◌, ◌==◌, if◌then◌else◌, false, List, [], ◌∷◌,
  ◌++◌, append_assoc, arith, inl, inr, Bool-cases,
}
use stackable_odbc_trino.Base.Text.{Text}
use stackable_odbc_trino.Base.Text.Parts.{cons_head}
use stackable_odbc_trino.Escape.Args.{
  Place, code, quoted, doubled, next_is, from_code, step, ends_argument, cut, pieces,
}

-- The quotes in a literal's text, doubled.
unfoldable pub doubled_in : ℕ → Text → Text
doubled_in q [] = []
doubled_in q (c ∷ s) = if c == q then q ∷ q ∷ doubled_in q s else c ∷ doubled_in q s

-- A character that opens nothing and closes nothing, and is no part of a comment's start.
abbrev pub IsPlain : ℕ → Type 0
IsPlain c = (c ≢ b'\'') × (c ≢ b'"') × (c ≢ b'-') × (c ≢ b'/') × (c ≢ b'(') × (c ≢ b')')

-- The grammar of an argument, from within some parentheses to its end outside all of them: plain
-- characters, of which the comma stands in parentheses only, parentheses, literals and quoted
-- identifiers with any text in them, and a minus sign before anything but another one.
pub data IsArgument : ℕ → Text → Type 0 where
  ended : (depth : ℕ) (t : Text) → depth ≡ 0 → t ≡ [] → IsArgument depth t
  plain :
      (depth c : ℕ) (s t : Text)
      → IsPlain c
      → (depth ≡ 0 → c ≢ b',')
      → t ≡ c ∷ s
      → IsArgument depth s
      → IsArgument depth t
  opened : (depth : ℕ) (s t : Text) → t ≡ b'(' ∷ s → IsArgument (depth + 1) s → IsArgument depth t
  closed :
      (depth outer : ℕ) (s t : Text)
      → depth ≡ outer + 1
      → t ≡ b')' ∷ s
      → IsArgument outer s
      → IsArgument depth t
  literal :
      (depth q : ℕ) (body s t : Text)
      → (q ≡ b'\'') ⊎ (q ≡ b'"')
      → next_is q s ≡ false
      → t ≡ q ∷ (doubled_in q body ++ q ∷ s)
      → IsArgument depth s
      → IsArgument depth t
  minus :
      (depth c : ℕ) (s t : Text)
      → c ≢ b'-'
      → t ≡ b'-' ∷ c ∷ s
      → IsArgument depth (c ∷ s)
      → IsArgument depth t

-- A text in front of the first piece.
unfoldable pub prepend : Text → List Text → List Text
prepend [] ps = ps
prepend (c ∷ s) ps = cons_head c (prepend s ps)

prepend-append : (a b : Text) (ps : List Text) → prepend (a ++ b) ps ≡ prepend a (prepend b ps)
unfolding prepend
prepend-append [] b ps = refl
prepend-append (c ∷ a) b ps = ap (cons_head c) (prepend-append a b ps)

pub prepend_whole : (a p : Text) (ps : List Text) → prepend a (p ∷ ps) ≡ (a ++ p) ∷ ps
unfolding prepend
prepend_whole [] p ps = refl
prepend_whole (c ∷ a) p ps = ap (cons_head c) (prepend_whole a p ps)

-- What may stand behind an argument: nothing, or a comma.
abbrev pub Separates : Text → Type 0
Separates tail = (q : ℕ) → q ≢ b',' → next_is q tail ≡ false

next_is-append :
    (q : ℕ) (s tail : Text)
    → next_is q s ≡ false
    → next_is q tail ≡ false
    → next_is q (s ++ tail) ≡ false
unfolding next_is
next_is-append q [] tail h g = g
next_is-append q (c ∷ s) tail h g = h

-- One character that does not end an argument.
pieces-step :
    (p q : Place) (c : ℕ) (t : Text)
    → ends_argument p c ≡ false
    → step p c t ≡ q
    → pieces p (c ∷ t) ≡ cons_head c (pieces q t)
unfolding pieces cut
pieces-step p q c t h e = rw (h, e) refl

step_plain : (depth c : ℕ) (t : Text) → IsPlain c → step (code depth) c t ≡ code depth
unfolding step from_code
step_plain depth c t h = ground arith

step_close :
    (depth q : ℕ) (behind : Text)
    → next_is q behind ≡ false
    → step (quoted q depth) q behind ≡ code depth
unfolding step
step_close depth q behind h = ground arith

step_pair : (depth q : ℕ) (behind : Text) → step (quoted q depth) q (q ∷ behind) ≡ doubled q depth
unfolding step next_is
step_pair depth q behind = ground arith

step_within :
    (depth q c : ℕ) (behind : Text)
    → (c == q) ≡ false
    → step (quoted q depth) c behind ≡ quoted q depth
unfolding step
step_within depth q c behind h = ground arith

pieces_pair :
    (depth q : ℕ) (t : Text)
    → pieces (quoted q depth) (q ∷ q ∷ t) ≡ cons_head q (cons_head q (pieces (quoted q depth) t))
unfolding ends_argument
pieces_pair depth q t =
    pieces-step (quoted q depth) (doubled q depth) q (q ∷ t) refl (step_pair depth q t)
    ∙ ap (cons_head q)
        (pieces-step (doubled q depth) (quoted q depth) q t refl (unfold step in refl))

pieces-doubled_in :
    (depth q : ℕ) (body behind : Text)
    → next_is q behind ≡ false
    → pieces (quoted q depth) (doubled_in q body ++ q ∷ behind)
      ≡ prepend (doubled_in q body ++ q ∷ []) (pieces (code depth) behind)
unfolding prepend ends_argument doubled_in
pieces-doubled_in depth q [] behind h =
    pieces-step (quoted q depth) (code depth) q behind refl (step_close depth q behind h)
pieces-doubled_in depth q (c ∷ body) behind h = elim (Bool-cases (c == q)) [
  | inl e ↦ rw e (
      pieces_pair depth q (doubled_in q body ++ q ∷ behind)
      ∙ ap (λ ps. cons_head q (cons_head q ps)) (pieces-doubled_in depth q body behind h))
  | inr e ↦ rw e (
      pieces-step (quoted q depth) (quoted q depth) c (doubled_in q body ++ q ∷ behind) refl
        (step_within depth q c (doubled_in q body ++ q ∷ behind) e)
      ∙ ap (cons_head c) (pieces-doubled_in depth q body behind h))
]

step_opens :
    (depth q : ℕ) (behind : Text)
    → (q ≡ b'\'') ⊎ (q ≡ b'"')
    → step (code depth) q behind ≡ quoted q depth
unfolding step from_code
step_opens depth q behind h = ground arith

ends_argument_not : (depth c : ℕ) → (depth ≡ 0 → c ≢ b',') → ends_argument (code depth) c ≡ false
unfolding ends_argument
ends_argument_not zero c h = let other = h refl in ground arith
ends_argument_not (suc n) c h = refl

step_minus : (depth c : ℕ) (s : Text) → c ≢ b'-' → step (code depth) b'-' (c ∷ s) ≡ code depth
unfolding step from_code next_is
step_minus depth c s h = ground arith

-- Reading an argument puts it in front of the first piece of what follows it.
abbrev pub Reads : ℕ → Text → Text → Type 0
Reads depth tail a = pieces (code depth) (a ++ tail) ≡ prepend a (pieces (code 0) tail)

minus_is_code : (depth : ℕ) → ends_argument (code depth) b'-' ≡ false
minus_is_code depth = ends_argument_not depth b'-' (λ d. omega arith)

step_paren :
    (depth : ℕ) (t : Text)
    → (step (code depth) b'(' t ≡ code (depth + 1)) × (step (code (depth + 1)) b')' t ≡ code depth)
unfolding step from_code
step_paren depth t = (refl, ground arith)

quote_is_code : (depth q : ℕ) → (q ≡ b'\'') ⊎ (q ≡ b'"') → ends_argument (code depth) q ≡ false
quote_is_code depth q h = ends_argument_not depth q (λ d. ground arith)

-- A literal before text that is read.
literal-Reads :
    (depth q : ℕ) (body s tail : Text)
    → (q ≡ b'\'') ⊎ (q ≡ b'"')
    → next_is q (s ++ tail) ≡ false
    → Reads depth tail s
    → Reads depth tail (q ∷ (doubled_in q body ++ q ∷ s))
unfolding prepend
literal-Reads depth q body s tail quote h rest =
    let inside = doubled_in q body in
    let regroup : (inside ++ q ∷ s) ++ tail ≡ inside ++ q ∷ (s ++ tail) =
      append_assoc inside (q ∷ s) tail in
    let front : prepend (inside ++ q ∷ s) (pieces (code 0) tail)
        ≡ prepend (inside ++ q ∷ []) (prepend s (pieces (code 0) tail)) =
      prepend-append inside (q ∷ s) (pieces (code 0) tail)
      ∙ sym (prepend-append inside (q ∷ []) (prepend s (pieces (code 0) tail))) in
    pieces-step (code depth) (quoted q depth) q ((inside ++ q ∷ s) ++ tail)
      (quote_is_code depth q quote) (step_opens depth q ((inside ++ q ∷ s) ++ tail) quote)
    ∙ ap (λ t. cons_head q (pieces (quoted q depth) t)) regroup
    ∙ ap (cons_head q) (pieces-doubled_in depth q body (s ++ tail) h)
    ∙ ap (λ ps. cons_head q (prepend (inside ++ q ∷ []) ps)) rest
    ∙ ap (cons_head q) (sym front)

pub pieces-IsArgument :
    (depth : ℕ) (a tail : Text) → Separates tail → IsArgument depth a → Reads depth tail a
unfolding prepend
pieces-IsArgument depth a tail sep (IsArgument.ended _ _ d e) =
    subst (Reads depth tail) (sym e) (ap (λ n. pieces (code n) tail) d)
pieces-IsArgument depth a tail sep (IsArgument.plain _ c s _ h comma e rest) =
    subst (Reads depth tail) (sym e) (
      pieces-step (code depth) (code depth) c (s ++ tail) (ends_argument_not depth c comma)
        (step_plain depth c (s ++ tail) h)
      ∙ ap (cons_head c) (pieces-IsArgument depth s tail sep rest))
pieces-IsArgument depth a tail sep (IsArgument.opened _ s _ e rest) =
    subst (Reads depth tail) (sym e) (
      pieces-step (code depth) (code (depth + 1)) b'(' (s ++ tail)
        (ends_argument_not depth b'(' (λ d. omega arith)) (step_paren depth (s ++ tail)).0
      ∙ ap (cons_head b'(') (pieces-IsArgument (depth + 1) s tail sep rest))
pieces-IsArgument depth a tail sep (IsArgument.closed _ outer s _ d e rest) =
    subst (λ n. Reads n tail a) (sym d)
      (subst (Reads (outer + 1) tail) (sym e) (
        pieces-step (code (outer + 1)) (code outer) b')' (s ++ tail)
          (ends_argument_not (outer + 1) b')' (λ d. omega arith)) (step_paren outer (s ++ tail)).1
        ∙ ap (cons_head b')') (pieces-IsArgument outer s tail sep rest)))
pieces-IsArgument depth a tail sep (IsArgument.literal _ q body s _ quote h e rest) =
    subst (Reads depth tail) (sym e) (
      literal-Reads depth q body s tail quote (next_is-append q s tail h (sep q (ground arith)))
        (pieces-IsArgument depth s tail sep rest))
pieces-IsArgument depth a tail sep (IsArgument.minus _ c s _ h e rest) =
    subst (Reads depth tail) (sym e) (
      pieces-step (code depth) (code depth) b'-' (c ∷ (s ++ tail)) (minus_is_code depth)
        (step_minus depth c (s ++ tail) h)
      ∙ ap (cons_head b'-') (pieces-IsArgument depth (c ∷ s) tail sep rest))
