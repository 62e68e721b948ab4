-- ===== src/Capabilities/Tests.antt =====
-- Runs of server/lingxilearn/state/capabilities.py: surrounding whitespace is not part of a tag.
use lingxi_learn.Prelude.{◌≡◌, refl, none, some}
use lingxi_learn.Capabilities.{
  parse, strip, strip_left, strip_right, is_space, of_value, teach_explain,
}

parse_padded : parse "  teach.explain\n" ≡ some teach_explain
unfolding parse strip strip_left strip_right is_space of_value
parse_padded = refl

parse_unknown : parse "teach.everything" ≡ none
unfolding parse strip strip_left strip_right is_space of_value
parse_unknown = refl
