-- ===== src/Image/Pipeline.antt =====
-- crates/ota-update/src/image/pipeline.rs: the commands that a plan consists of.
use ghaf_givc.Prelude.{Bool, true, false, List, [], ◌∷◌, ◌++◌}
use ghaf_givc.Text.{Text, codes}

pub record CommandSpec : Type 0 where
  pub program : Text
  pub args : List Text

pub record Pipeline : Type 0 where
  pub stages : List CommandSpec

abbrev pub command : Text → CommandSpec
command program = record { program = program; args = [] }

-- `arg` and `arg_path`: a path that is valid UTF-8 is its own text.
abbrev pub with_arg : CommandSpec → Text → CommandSpec
with_arg c a = record c { args = c.args ++ a ∷ [] }

abbrev pub with_args : CommandSpec → List Text → CommandSpec
with_args c more = record c { args = c.args ++ more }

-- `Pipeline::new`, also the conversion of a command.
abbrev pub single : CommandSpec → Pipeline
single first = record { stages = first ∷ [] }

abbrev pub pipe : Pipeline → CommandSpec → Pipeline
pipe p next = record { stages = p.stages ++ next ∷ [] }

abbrev pub is_empty : Pipeline → Bool
is_empty p = elim p.stages [ [] ↦ true | _ ↦ false ]

-- `escape` quotes an argument for the shell (the crate shell_escape).
module _ (escape : Text → Text) where
  unfoldable pub format_args : List Text → Text
  format_args [] = []
  format_args (a ∷ args) = codes " " ++ (escape a ++ format_args args)

  unfoldable pub format_command : CommandSpec → Text
  unfolding format_args
  format_command c = c.program ++ format_args c.args

  unfoldable pub join_stages : List CommandSpec → Text
  unfolding format_command
  join_stages [] = []
  join_stages (c ∷ []) = format_command c
  join_stages (c ∷ d ∷ rest) = format_command c ++ (codes " | " ++ join_stages (d ∷ rest))

  unfoldable pub format_shell : Pipeline → Text
  unfolding join_stages
  format_shell p = join_stages p.stages
