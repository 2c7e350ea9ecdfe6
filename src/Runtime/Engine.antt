-- ===== src/Runtime/Engine.antt =====
-- The engines that internal/runtime calls and that the program does not contain: text/template and
-- regexp. Each is known by what it answers.
use pass_ctrl.Prelude.{String, Bool, Result}
use pass_ctrl.Rulechain.Types.{Template, ValueMatcher, literal, regex}
use pass_ctrl.Pipeline.State.{State}
use pass_ctrl.Prelude.{◌==◌}

-- Template.Render on TemplateContext(), which copies the fields of the state.
abbrev pub TemplateEngine : Type 0
TemplateEngine = Template → State → Result String

-- Regexp.MatchString: the pattern, and the text.
abbrev pub RegexEngine : Type 0
RegexEngine = String → String → Bool

-- ValueMatcher.Matches
unfoldable pub matches : RegexEngine → String → ValueMatcher → Bool
matches engine input (literal text) = text == input
matches engine input (regex pattern) = engine pattern input
