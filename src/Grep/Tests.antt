-- ===== src/Grep/Tests.antt =====
-- Two short lines.
use computer_organization_an.Common.{Bool, arith, ◌≡◌, refl, some, [], ◌∷◌}
use computer_organization_an.Common.Outcome.{ok}
use computer_organization_an.Grep.{
  found, grep, grep_files, grep_lines, then_rest, get_lines, begin_line, print, match_loop,
  search_loop,
}
use computer_organization_an.Grep.Search.{Decides, found-Contains}

-- "b" in "abc".
found-Contains_example :
    (printed : Bool) × (found (98 ∷ []) (97 ∷ 98 ∷ 99 ∷ []) ≡ ok printed)
    × Decides (98 ∷ []) (97 ∷ 98 ∷ 99 ∷ []) printed
found-Contains_example = found-Contains (98 ∷ []) (97 ∷ 98 ∷ 99 ∷ []) (omega arith)

grep_run :
    grep (λ name. some (97 ∷ 10 ∷ 98 ∷ 10 ∷ [])) [] ((98 ∷ []) ∷ (102 ∷ []) ∷ [])
    ≡ ok (98 ∷ 10 ∷ [], 0)
unfolding grep grep_files grep_lines then_rest get_lines begin_line print found match_loop
    search_loop
grep_run = refl
