-- ===== src/Wire/Parameters.antt =====
-- What `RewriteStartup` of internal/wire/framing.go leaves of a client's parameters.
use dsql_emulator.Prelude.{
  ◌≡◌, refl, ap, sym, ◌∙◌, false, List, [], ◌∷◌, ◌++◌, arith, Text, lit, text_eq, text_eq_iff,
  text_eq_refl, join_spaced,
}
use dsql_emulator.Wire.Startup.{
  StartupMessage, look_up, put, put_all, all_options, put_options, with_parameters,
}

look_up-put_same :
    (key value : Text) (ps : List (Text × Text)) → look_up key (put key value ps) ≡ value
unfolding look_up put
look_up-put_same key value [] = ground (arith, text_eq_refl key)
look_up-put_same key value ((k, v) ∷ ps) = ground (arith, look_up-put_same key value ps)

look_up-put_other :
    (key other value : Text) (ps : List (Text × Text))
    → text_eq other key ≡ false
    → look_up key (put other value ps) ≡ look_up key ps
unfolding look_up put
look_up-put_other key other value [] h = ground arith
look_up-put_other key other value ((k, v) ∷ ps) h =
    ground
      (arith, look_up-put_other key other value ps h, text_eq_iff k other, text_eq_iff k key, h)

abbrev pub options_key : Text
options_key = lit "options"

-- Options after those that are there, with spaces between.
unfoldable pub appended : Text → List Text → Text
appended existing [] = existing
appended [] (o ∷ options) = join_spaced (o ∷ options)
appended (c ∷ existing) (o ∷ options) = (c ∷ existing) ++ b' ' ∷ join_spaced (o ∷ options)

join_spaced-all_options :
    (s : Text) (options : List Text) → join_spaced (all_options s options) ≡ appended s options
unfolding join_spaced all_options appended
join_spaced-all_options [] [] = refl
join_spaced-all_options (c ∷ s) [] = refl
join_spaced-all_options [] (o ∷ options) = refl
join_spaced-all_options (c ∷ s) (o ∷ options) = refl

join_spaced-existing : (s : Text) → join_spaced (all_options s []) ≡ s
unfolding join_spaced all_options
join_spaced-existing [] = refl
join_spaced-existing (c ∷ s) = refl

look_up-put_options :
    (options : List Text) (ps : List (Text × Text))
    → look_up options_key (put_options options ps)
      ≡ join_spaced (all_options (look_up options_key ps) options)
unfolding put_options
look_up-put_options [] ps = sym (join_spaced-existing (look_up options_key ps))
look_up-put_options (o ∷ options) ps = look_up-put_same options_key _ ps

look_up-put_options_other :
    (key : Text) (options : List Text) (ps : List (Text × Text))
    → text_eq options_key key ≡ false
    → look_up key (put_options options ps) ≡ look_up key ps
unfolding put_options
look_up-put_options_other key [] ps h = refl
look_up-put_options_other key (o ∷ options) ps h = look_up-put_other key options_key _ ps h

-- A startup message with one parameter set, which is not the options, and options added: the parameter has
-- its value, the options are those of the client and then those added, separated by spaces, and
-- every other parameter is as the client sent it.
pub with_parameters_kept :
    (name value : Text) (options : List Text) (m : StartupMessage)
    → text_eq options_key name ≡ false
    → text_eq name options_key ≡ false
    → let ps = (with_parameters ((name, value) ∷ []) options m).parameters in
      (look_up name ps ≡ value)
      × (look_up options_key ps ≡ appended (look_up options_key m.parameters) options)
      × ((key : Text)
          → text_eq name key ≡ false
          → text_eq options_key key ≡ false
          → look_up key ps ≡ look_up key m.parameters)
unfolding with_parameters put_all
with_parameters_kept name value options m p q = (
  look_up-put_options_other name options (put name value m.parameters) p
      ∙ look_up-put_same name value m.parameters,
  look_up-put_options options (put name value m.parameters)
      ∙ ap (λ t. join_spaced (all_options t options))
          (look_up-put_other options_key name value m.parameters q)
      ∙ join_spaced-all_options (look_up options_key m.parameters) options,
  λ key r s.
      look_up-put_options_other key options (put name value m.parameters) s
      ∙ look_up-put_other key name value m.parameters r,
)
