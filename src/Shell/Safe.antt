-- ===== src/Shell/Safe.antt =====
-- What a run of the shell that goes well keeps.
use computer_organization_an.Common.{◌≡◌, length}
use computer_organization_an.Common.Outcome.{Outcome, ok}
use computer_organization_an.Shell.{Shell}

-- `path_length` is the number of nodes.
abbrev pub WellFormed : Shell → Type 0
WellFormed sh = sh.path_length ≡ length sh.path_ptr

-- The run ends without a fault.
abbrev pub Ends : {A : Type 0} → Outcome A → Type 0
Ends {A} r = (a : A) × (r ≡ ok a)
