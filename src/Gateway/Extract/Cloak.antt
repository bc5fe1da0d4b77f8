-- ===== src/Gateway/Extract/Cloak.antt =====
-- The names that upstream cloaks for Anthropic clients (`decodeClaudeModelID`).
use llm_proxy_backend.Prelude.{
  ℕ, ◌≡◌, refl, sym, ap, ◌∙◌, true, false, ◌||◌, none, some, [], ◌∷◌, ◌++◌, arith,
}
use mathlib.Core.List.{reverse, reverse_aux}
use llm_proxy_backend.Prelude.Text.{Text, codes, ◌=t◌, any_is}
use llm_proxy_backend.Access.Policy.{ends_in}
use llm_proxy_backend.Gateway.Extract.{
  cut_last, drop_last, cut_prefix, reversed, decoded_base, claude_dd_model_prefix,
  decode_claude_model_id,
}

cut_last-absent : (k : ℕ) (s : Text) → any_is k s ≡ false → cut_last k s ≡ none
unfolding cut_last
cut_last-absent k [] h = refl
cut_last-absent k (c ∷ s) h = ground (arith, cut_last-absent k s)

any_is-append : (k : ℕ) (s t : Text) → any_is k (s ++ t) ≡ (any_is k s || any_is k t)
any_is-append k [] t = refl
any_is-append k (c ∷ s) t = ground (arith, any_is-append k s t)

any_is-reversed : (k : ℕ) (s : Text) → any_is k (reversed s) ≡ any_is k s
unfolding reversed
any_is-reversed k [] = refl
any_is-reversed k (c ∷ s) =
    any_is-append k (reversed s) (c ∷ []) ∙ ground (arith, any_is-reversed k s)

append_assoc : (s t u : Text) → (s ++ t) ++ u ≡ s ++ (t ++ u)
append_assoc [] t u = refl
append_assoc (c ∷ s) t u = cc (append_assoc s t u)

append_nil : (s : Text) → s ++ [] ≡ s
append_nil [] = refl
append_nil (c ∷ s) = cc (append_nil s)

reversed-append : (s t : Text) → reversed (s ++ t) ≡ reversed t ++ reversed s
unfolding reversed
reversed-append [] t = sym (append_nil (reversed t))
reversed-append (c ∷ s) t =
    ap (λ x. x ++ c ∷ []) (reversed-append s t) ∙ append_assoc (reversed t) (reversed s) (c ∷ [])

reversed_twice : (s : Text) → reversed (reversed s) ≡ s
unfolding reversed
reversed_twice [] = refl
reversed_twice (c ∷ s) = reversed-append (reversed s) (c ∷ []) ∙ cc (reversed_twice s)

cut_prefix-append : (p s : Text) → cut_prefix (p ++ s) p ≡ some s
unfolding cut_prefix
cut_prefix-append [] s = refl
cut_prefix-append (c ∷ p) s = ground (arith, cut_prefix-append p s)

cut_last-present : (k : ℕ) (a b : Text) → any_is k b ≡ false → cut_last k (a ++ k ∷ b) ≡ some (a, b)
unfolding cut_last
cut_last-present k [] b h = ground (arith, cut_last-absent k b h)
cut_last-present k (c ∷ a) b h = ground (arith, cut_last-present k a b h)

append-not_nil : (s : Text) (c : ℕ) → ((s ++ c ∷ []) =t []) ≡ false
append-not_nil [] c = refl
append-not_nil (d ∷ s) c = refl

reversed-not_nil : (s : Text) → (s =t []) ≡ false → (reversed s =t []) ≡ false
unfolding reversed
reversed-not_nil [] h = h
reversed-not_nil (c ∷ s) h = append-not_nil (reversed s) c

ends_in-append : (k : ℕ) (s : Text) → ends_in k (s ++ k ∷ []) ≡ true
unfolding ends_in
ends_in-append k [] = ground arith
ends_in-append k (c ∷ []) = ground arith
ends_in-append k (c ∷ d ∷ s) = ends_in-append k (d ∷ s)

drop_last-append : (s : Text) (k : ℕ) → drop_last (s ++ k ∷ []) ≡ s
unfolding drop_last
drop_last-append [] k = refl
drop_last-append (c ∷ []) k = refl
drop_last-append (c ∷ d ∷ s) k = cc (drop_last-append (d ∷ s) k)

-- The prefix and a name reversed, by the list library's reversal.
abbrev cloaked : Text → Text
cloaked model = codes "claude-fable-5-dd-" ++ reverse model

reverse_aux-reversed : (s r : Text) → reverse_aux s r ≡ reversed s ++ r
unfolding reversed
reverse_aux-reversed [] r = refl
reverse_aux-reversed (c ∷ s) r =
    reverse_aux-reversed s (c ∷ r) ∙ sym (append_assoc (reversed s) (c ∷ []) r)

reverse-reversed : (s : Text) → reverse s ≡ reversed s
reverse-reversed s = reverse_aux-reversed s [] ∙ append_nil (reversed s)

decoded_base-some :
    (id base suffix encoded : Text)
    → cut_prefix base claude_dd_model_prefix ≡ some encoded
    → (encoded =t []) ≡ false
    → decoded_base id base suffix ≡ reversed encoded ++ suffix
unfolding decoded_base
decoded_base-some id base suffix encoded found named = ground (arith, found, named)

decoded_base-cloaked :
    (id model suffix : Text)
    → (model =t []) ≡ false
    → decoded_base id (cloaked model) suffix ≡ model ++ suffix
decoded_base-cloaked id model suffix named =
    decoded_base-some id (cloaked model) suffix (reversed model)
      (ap (λ x. cut_prefix (claude_dd_model_prefix ++ x) claude_dd_model_prefix)
          (reverse-reversed model)
        ∙ cut_prefix-append claude_dd_model_prefix (reversed model))
      (reversed-not_nil model named)
    ∙ ap (λ x. x ++ suffix) (reversed_twice model)

cut_last-cloaked : (model : Text) → any_is b'(' model ≡ false → any_is b'(' (cloaked model) ≡ false
cut_last-cloaked model plain =
    ap (λ x. any_is b'(' (claude_dd_model_prefix ++ x)) (reverse-reversed model)
    ∙ any_is-append b'(' claude_dd_model_prefix (reversed model)
    ∙ any_is-reversed b'(' model
    ∙ plain

decode-plain :
    (id : Text) → cut_last b'(' id ≡ none → decode_claude_model_id id ≡ decoded_base id id []
unfolding decode_claude_model_id
decode-plain id h = ground (arith, h)

decode-suffixed :
    (id base rest : Text)
    → cut_last b'(' id ≡ some (base, rest)
    → ends_in b')' id ≡ true
    → decode_claude_model_id id ≡ decoded_base id base (b'(' ∷ (drop_last rest ++ b')' ∷ []))
unfolding decode_claude_model_id
decode-suffixed id base rest h k = ground (arith, h, k)

-- For every model whose name is not empty and has no "(": "claude-fable-5-dd-" and the name reversed,
-- which by the source's comment is how upstream lists a model to Anthropic clients, is decoded to the
-- model; and with a suffix in parentheses, in which there is no "(", it is decoded to the model with
-- that suffix.
pub decode_claude_model_id-reverse :
    (model suffix : Text)
    → (model =t []) ≡ false
    → any_is b'(' model ≡ false
    → any_is b'(' suffix ≡ false
    → (decode_claude_model_id (codes "claude-fable-5-dd-" ++ reverse model) ≡ model)
      × (decode_claude_model_id
            (codes "claude-fable-5-dd-" ++ reverse model ++ b'(' ∷ (suffix ++ b')' ∷ []))
          ≡ model ++ b'(' ∷ (suffix ++ b')' ∷ []))
decode_claude_model_id-reverse model suffix named plain closed =
    let whole = cloaked model ++ b'(' ∷ (suffix ++ b')' ∷ []) in
    let rest : any_is b'(' (suffix ++ b')' ∷ []) ≡ false =
      any_is-append b'(' suffix (b')' ∷ []) ∙ rw closed refl in
    let last : ends_in b')' whole ≡ true =
      ap (ends_in b')') (sym (append_assoc (cloaked model) (b'(' ∷ suffix) (b')' ∷ [])))
      ∙ ends_in-append b')' (cloaked model ++ b'(' ∷ suffix) in
    (
      decode-plain (cloaked model)
            (cut_last-absent b'(' (cloaked model) (cut_last-cloaked model plain))
          ∙ decoded_base-cloaked (cloaked model) model [] named
          ∙ append_nil model,
      decode-suffixed whole (cloaked model) (suffix ++ b')' ∷ [])
            (cut_last-present b'(' (cloaked model) (suffix ++ b')' ∷ []) rest) last
          ∙ decoded_base-cloaked whole model (b'(' ∷ (drop_last (suffix ++ b')' ∷ []) ++ b')' ∷ []))
              named
          ∙ ap (λ x. model ++ b'(' ∷ (x ++ b')' ∷ [])) (drop_last-append suffix b')'),
    )
