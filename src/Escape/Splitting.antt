-- ===== src/Escape/Splitting.antt =====
-- Which pieces an argument list is split into.
use stackable_odbc_trino.Base.{
  ℕ, zero, suc, ◌≡◌, refl, sym, ap, ◌∙◌, Bool, true, false, List, [], ◌∷◌, ◌++◌, map, append-nil,
  arith, All,
}
use stackable_odbc_trino.Base.Text.{Text}
use stackable_odbc_trino.Base.Text.Space.{trim}
use stackable_odbc_trino.Base.Text.Parts.{cons_head}
use stackable_odbc_trino.Escape.Grammar.{
  IsArgument, Separates, prepend, prepend_whole, pieces-IsArgument,
}
use stackable_odbc_trino.Escape.Args.{
  Place, code, quoted, doubled, line_comment, opening, block_comment, closing, next_is, from_code,
  step, ends_argument, cut, pieces, split_args,
}

-- The pieces with a comma between each two.
unfoldable pub joined : List Text → Text
joined [] = []
joined (a ∷ []) = a
joined (a ∷ b ∷ rest) = a ++ b',' ∷ joined (b ∷ rest)

Separates-nil : Separates []
Separates-nil q h = unfold next_is in refl

Separates-cons : (t : Text) → Separates (b',' ∷ t)
unfolding next_is
Separates-cons t q h = ground arith

at_comma : (t : Text) → pieces (code 0) (b',' ∷ t) ≡ [] ∷ pieces (code 0) t
unfolding pieces cut ends_argument step from_code
at_comma t = refl

at_end : pieces (code 0) [] ≡ [] ∷ []
unfolding pieces
at_end = refl

pieces_last : (a : Text) → IsArgument 0 a → pieces (code 0) a ≡ a ∷ []
pieces_last a h =
    ap (pieces (code 0)) (sym (append-nil a))
    ∙ pieces-IsArgument 0 a [] Separates-nil h
    ∙ ap (prepend a) at_end
    ∙ prepend_whole a [] []
    ∙ ap (λ t. t ∷ []) (append-nil a)

pieces_before :
    (a t : Text) → IsArgument 0 a → pieces (code 0) (a ++ b',' ∷ t) ≡ a ∷ pieces (code 0) t
pieces_before a t h =
    pieces-IsArgument 0 a (b',' ∷ t) (Separates-cons t) h
    ∙ ap (prepend a) (at_comma t)
    ∙ prepend_whole a [] (pieces (code 0) t)
    ∙ ap (λ x. x ∷ pieces (code 0) t) (append-nil a)

pieces-joined :
    (a : Text) (rest : List Text)
    → All (IsArgument 0) (a ∷ rest)
    → pieces (code 0) (joined (a ∷ rest)) ≡ a ∷ rest
unfolding joined
pieces-joined a [] (h, _) = pieces_last a h
pieces-joined a (b ∷ rest) (h, hs) =
    pieces_before a (joined (b ∷ rest)) h ∙ ap (λ ps. a ∷ ps) (pieces-joined b rest hs)

-- A list of arguments of the grammar, written with commas between them, is split into these arguments,
-- each without the space around it, however many commas and quotes stand in their literals and
-- parentheses.
pub split_args-joined :
    (a : Text) (rest : List Text)
    → All (IsArgument 0) (a ∷ rest)
    → split_args (joined (a ∷ rest)) ≡ map trim (a ∷ rest)
unfolding split_args
split_args-joined a rest h = ap (map trim) (pieces-joined a rest h)

joined_first : (c : ℕ) (ps : List Text) → joined (cons_head c ps) ≡ c ∷ joined ps
unfolding joined
joined_first c [] = refl
joined_first c (p ∷ []) = refl
joined_first c (p ∷ q ∷ ps) = refl

cut_nonempty :
    (b : Bool) (c : ℕ) (ps : List Text) → (p : Text) × (rest : List Text) × (cut b c ps ≡ p ∷ rest)
unfolding cut
cut_nonempty true c ps = ([], ps, refl)
cut_nonempty false c [] = (c ∷ [], [], refl)
cut_nonempty false c (p ∷ ps) = (c ∷ p, ps, refl)

pieces_nonempty : (p : Place) (s : Text) → (a : Text) × (rest : List Text) × (pieces p s ≡ a ∷ rest)
unfolding pieces
pieces_nonempty p [] = ([], [], refl)
pieces_nonempty p (c ∷ s) = cut_nonempty (ends_argument p c) c (pieces (step p c s) s)

ends_argument_comma : (p : Place) (c : ℕ) → ends_argument p c ≡ true → c ≡ b','
unfolding ends_argument
ends_argument_comma (code zero) c h = ground arith
ends_argument_comma (code (suc n)) c h = cc
ends_argument_comma (quoted q n) c h = cc
ends_argument_comma (doubled q n) c h = cc
ends_argument_comma (line_comment n) c h = cc
ends_argument_comma (opening n) c h = cc
ends_argument_comma (block_comment n) c h = cc
ends_argument_comma (closing n) c h = cc

joined-cut :
    (b : Bool) (c : ℕ) (ps : List Text)
    → (b ≡ true → c ≡ b',')
    → ((a : Text) × (rest : List Text) × (ps ≡ a ∷ rest))
    → joined (cut b c ps) ≡ c ∷ joined ps
unfolding cut
joined-cut true c [] comma (a, rest, e) = cc
joined-cut true c (p ∷ ps) comma h =
    unfold joined in ap (λ d. d ∷ joined (p ∷ ps)) (sym (comma refl))
joined-cut false c ps comma h = joined_first c ps

-- Splitting takes nothing out of the text but commas and the space around the arguments: the
-- arguments are pieces that, put together with commas, are the text again.
pub joined-pieces : (p : Place) (s : Text) → joined (pieces p s) ≡ s
unfolding pieces
joined-pieces p [] = unfold joined in refl
joined-pieces p (c ∷ s) =
    joined-cut (ends_argument p c) c (pieces (step p c s) s) (ends_argument_comma p c)
      (pieces_nonempty (step p c s) s)
    ∙ ap (λ t. c ∷ t) (joined-pieces (step p c s) s)
