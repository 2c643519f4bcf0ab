-- ===== src/Tests/Templates.antt =====
-- A template with one variable that is known and one that is not.
use Prim.Native.Char.{Char, code}
use jeeves_core.Prelude.{String, ◌≡◌, refl, Bool, ◌||◌, List, [], ◌∷◌, leb, ◌&&◌}
use jeeves_core.Prelude.Dict.{Dict}
use jeeves_core.Agent.Prompts.{
  CharTests, render_template, substitute, replace_from, is_prefix, strip, closed, is_identifier,
}
use jeeves_core.Agent.Prompts.Parts.{Part, words, var, print, fill, is_plain, render_template-fill}

-- The tests on ASCII.
abbrev is_letter : Char → Bool
is_letter c = (leb b'a' (code c) && leb (code c) b'z') || (leb b'A' (code c) && leb (code c) b'Z')

abbrev ascii : CharTests
ascii = record {
  is_alphabetic = is_letter;
  is_alphanumeric = λ c. is_letter c || (leb b'0' (code c) && leb (code c) b'9');
}

abbrev greeting : List Part
greeting = words "Hello " ∷ var "name" ∷ words ", about " ∷ var "topic_1" ∷ words "!" ∷ []

abbrev vars : Dict String
vars = ("name", "Alice") ∷ ("other", "Bob") ∷ []

greeting_text : print greeting ≡ "Hello {name}, about {topic_1}!"
greeting_text = refl

render_template-fill_example : render_template ascii (print greeting) vars ≡ fill vars greeting
unfolding is_plain is_identifier
render_template-fill_example =
    render_template-fill ascii vars greeting (refl, (refl, tt)) (refl, (refl, tt))
      (refl, ((refl, refl), (refl, ((refl, refl), (refl, tt)))))

-- Braces that hold no identifier stay, and a variable inside them is not removed.
nested_stays : render_template ascii "{\"k\": {name}}" [] ≡ "{\"k\": {name}}"
unfolding render_template substitute strip closed is_identifier
nested_stays = refl

-- What a value brings in is looked at again.
value_rescanned : render_template ascii "Say {a}." (("a", "{b}") ∷ ("b", "no") ∷ []) ≡ "Say no."
unfolding render_template substitute replace_from is_prefix strip closed is_identifier
value_rescanned = refl

value_stripped : render_template ascii "Say {a}." (("a", "{b}") ∷ []) ≡ "Say ."
unfolding render_template substitute replace_from is_prefix strip closed is_identifier
value_stripped = refl
