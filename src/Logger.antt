-- ===== src/Logger.antt =====
-- logger.go. A logger is what each method prints for a message that is already formatted.
use httpkit.Prelude.{String, List, [], ◌∷◌}

-- Go's interface `Logger`: the lines that each level prints.
pub record Logger : Type 0 where
  pub debug : String → List String
  pub info : String → List String
  pub warn : String → List String
  pub error : String → List String

unfoldable pub new_noop_logger : Logger
new_noop_logger = record { debug = λ _. []; info = λ _. []; warn = λ _. []; error = λ _. [] }

-- Debug messages are printed, the other levels are those of the wrapped logger.
unfoldable pub new_debug_logger : Logger → Logger
new_debug_logger logger = record {
  debug = λ m. m ∷ [];
  info = λ m. logger.info m;
  warn = λ m. logger.warn m;
  error = λ m. logger.error m;
}

unfoldable pub new_logger : Logger
new_logger = record { debug = λ _. []; info = λ m. m ∷ []; warn = λ m. m ∷ []; error = λ m. m ∷ [] }
