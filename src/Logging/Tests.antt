-- ===== src/Logging/Tests.antt =====
-- Lines of the program.
use poly_balance.Base.{◌≡◌, refl, [], ◌∷◌}
use poly_balance.Logging.{new_logger, info_line, error_line, Argument}

abbrev reason : Argument
reason = record { type_name = "*errors.errorString"; text = "in use" }

stopped :
    error_line (new_logger "MAIN") "HTTP server stopped: %v" (reason ∷ [])
    ≡ "[MAIN] ERROR: HTTP server stopped: in use"
unfolding error_line new_logger
stopped = refl

missing :
    info_line (new_logger "MAIN") "Using strategy: %s" [] ≡ "[MAIN] Using strategy: %!s(MISSING)"
unfolding info_line new_logger
missing = refl

spare :
    info_line (new_logger "MAIN") "Ready" (reason ∷ [])
    ≡ "[MAIN] Ready%!(EXTRA *errors.errorString=in use)"
unfolding info_line new_logger
spare = refl
