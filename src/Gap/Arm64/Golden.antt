-- ===== src/Gap/Arm64/Golden.antt =====
-- internal/gap/arm64.go: the reference encodings of the multiplies by element.
use asmgen.Base.{List, [], ◌∷◌}
use asmgen.Gap.{Case, case}

unfoldable pub fmla_4s_golden : List Case
fmla_4s_golden =
    case (0 ∷ 0 ∷ 0 ∷ 0 ∷ []) 0x4f801000
    ∷ case (31 ∷ 0 ∷ 0 ∷ 0 ∷ []) 0x4f80101f
    ∷ case (0 ∷ 31 ∷ 0 ∷ 0 ∷ []) 0x4f8013e0
    ∷ case (0 ∷ 0 ∷ 31 ∷ 0 ∷ []) 0x4f9f1000
    ∷ case (0 ∷ 0 ∷ 15 ∷ 0 ∷ []) 0x4f8f1000
    ∷ case (0 ∷ 0 ∷ 16 ∷ 0 ∷ []) 0x4f901000
    ∷ case (0 ∷ 0 ∷ 0 ∷ 1 ∷ []) 0x4fa01000
    ∷ case (0 ∷ 0 ∷ 0 ∷ 2 ∷ []) 0x4f801800
    ∷ case (0 ∷ 0 ∷ 0 ∷ 3 ∷ []) 0x4fa01800
    ∷ case (17 ∷ 9 ∷ 26 ∷ 2 ∷ []) 0x4f9a1931
    ∷ case (31 ∷ 31 ∷ 31 ∷ 3 ∷ []) 0x4fbf1bff
    ∷ []

unfoldable pub fmla_2d_golden : List Case
fmla_2d_golden =
    case (0 ∷ 0 ∷ 0 ∷ 0 ∷ []) 0x4fc01000
    ∷ case (31 ∷ 0 ∷ 0 ∷ 0 ∷ []) 0x4fc0101f
    ∷ case (0 ∷ 31 ∷ 0 ∷ 0 ∷ []) 0x4fc013e0
    ∷ case (0 ∷ 0 ∷ 31 ∷ 0 ∷ []) 0x4fdf1000
    ∷ case (0 ∷ 0 ∷ 15 ∷ 0 ∷ []) 0x4fcf1000
    ∷ case (0 ∷ 0 ∷ 16 ∷ 0 ∷ []) 0x4fd01000
    ∷ case (0 ∷ 0 ∷ 0 ∷ 1 ∷ []) 0x4fc01800
    ∷ case (17 ∷ 9 ∷ 26 ∷ 0 ∷ []) 0x4fda1131
    ∷ case (31 ∷ 31 ∷ 31 ∷ 1 ∷ []) 0x4fdf1bff
    ∷ case (0 ∷ 16 ∷ 20 ∷ 0 ∷ []) 0x4fd41200
    ∷ case (1 ∷ 17 ∷ 20 ∷ 0 ∷ []) 0x4fd41221
    ∷ case (2 ∷ 18 ∷ 20 ∷ 0 ∷ []) 0x4fd41242
    ∷ case (3 ∷ 19 ∷ 20 ∷ 0 ∷ []) 0x4fd41263
    ∷ case (4 ∷ 16 ∷ 20 ∷ 1 ∷ []) 0x4fd41a04
    ∷ case (5 ∷ 17 ∷ 20 ∷ 1 ∷ []) 0x4fd41a25
    ∷ case (6 ∷ 18 ∷ 20 ∷ 1 ∷ []) 0x4fd41a46
    ∷ case (7 ∷ 19 ∷ 20 ∷ 1 ∷ []) 0x4fd41a67
    ∷ case (8 ∷ 16 ∷ 21 ∷ 0 ∷ []) 0x4fd51208
    ∷ case (9 ∷ 17 ∷ 21 ∷ 0 ∷ []) 0x4fd51229
    ∷ case (10 ∷ 18 ∷ 21 ∷ 0 ∷ []) 0x4fd5124a
    ∷ case (11 ∷ 19 ∷ 21 ∷ 0 ∷ []) 0x4fd5126b
    ∷ case (12 ∷ 16 ∷ 21 ∷ 1 ∷ []) 0x4fd51a0c
    ∷ case (13 ∷ 17 ∷ 21 ∷ 1 ∷ []) 0x4fd51a2d
    ∷ case (14 ∷ 18 ∷ 21 ∷ 1 ∷ []) 0x4fd51a4e
    ∷ case (15 ∷ 19 ∷ 21 ∷ 1 ∷ []) 0x4fd51a6f
    ∷ []

unfoldable pub fmls_4s_golden : List Case
fmls_4s_golden =
    case (0 ∷ 0 ∷ 0 ∷ 0 ∷ []) 0x4f805000
    ∷ case (31 ∷ 0 ∷ 0 ∷ 0 ∷ []) 0x4f80501f
    ∷ case (0 ∷ 31 ∷ 0 ∷ 0 ∷ []) 0x4f8053e0
    ∷ case (0 ∷ 0 ∷ 31 ∷ 0 ∷ []) 0x4f9f5000
    ∷ case (0 ∷ 0 ∷ 15 ∷ 0 ∷ []) 0x4f8f5000
    ∷ case (0 ∷ 0 ∷ 16 ∷ 0 ∷ []) 0x4f905000
    ∷ case (0 ∷ 0 ∷ 0 ∷ 1 ∷ []) 0x4fa05000
    ∷ case (0 ∷ 0 ∷ 0 ∷ 2 ∷ []) 0x4f805800
    ∷ case (0 ∷ 0 ∷ 0 ∷ 3 ∷ []) 0x4fa05800
    ∷ case (17 ∷ 9 ∷ 26 ∷ 2 ∷ []) 0x4f9a5931
    ∷ case (31 ∷ 31 ∷ 31 ∷ 3 ∷ []) 0x4fbf5bff
    ∷ []

unfoldable pub fmls_2d_golden : List Case
fmls_2d_golden =
    case (0 ∷ 0 ∷ 0 ∷ 0 ∷ []) 0x4fc05000
    ∷ case (31 ∷ 0 ∷ 0 ∷ 0 ∷ []) 0x4fc0501f
    ∷ case (0 ∷ 31 ∷ 0 ∷ 0 ∷ []) 0x4fc053e0
    ∷ case (0 ∷ 0 ∷ 31 ∷ 0 ∷ []) 0x4fdf5000
    ∷ case (0 ∷ 0 ∷ 15 ∷ 0 ∷ []) 0x4fcf5000
    ∷ case (0 ∷ 0 ∷ 16 ∷ 0 ∷ []) 0x4fd05000
    ∷ case (0 ∷ 0 ∷ 0 ∷ 1 ∷ []) 0x4fc05800
    ∷ case (17 ∷ 9 ∷ 26 ∷ 0 ∷ []) 0x4fda5131
    ∷ case (31 ∷ 31 ∷ 31 ∷ 1 ∷ []) 0x4fdf5bff
    ∷ []

unfoldable pub fmul_4s_golden : List Case
fmul_4s_golden =
    case (0 ∷ 0 ∷ 0 ∷ 0 ∷ []) 0x4f809000
    ∷ case (31 ∷ 0 ∷ 0 ∷ 0 ∷ []) 0x4f80901f
    ∷ case (0 ∷ 31 ∷ 0 ∷ 0 ∷ []) 0x4f8093e0
    ∷ case (0 ∷ 0 ∷ 31 ∷ 0 ∷ []) 0x4f9f9000
    ∷ case (0 ∷ 0 ∷ 15 ∷ 0 ∷ []) 0x4f8f9000
    ∷ case (0 ∷ 0 ∷ 16 ∷ 0 ∷ []) 0x4f909000
    ∷ case (0 ∷ 0 ∷ 0 ∷ 1 ∷ []) 0x4fa09000
    ∷ case (0 ∷ 0 ∷ 0 ∷ 2 ∷ []) 0x4f809800
    ∷ case (0 ∷ 0 ∷ 0 ∷ 3 ∷ []) 0x4fa09800
    ∷ case (17 ∷ 9 ∷ 26 ∷ 2 ∷ []) 0x4f9a9931
    ∷ case (31 ∷ 31 ∷ 31 ∷ 3 ∷ []) 0x4fbf9bff
    ∷ []

unfoldable pub fmul_2d_golden : List Case
fmul_2d_golden =
    case (0 ∷ 0 ∷ 0 ∷ 0 ∷ []) 0x4fc09000
    ∷ case (31 ∷ 0 ∷ 0 ∷ 0 ∷ []) 0x4fc0901f
    ∷ case (0 ∷ 31 ∷ 0 ∷ 0 ∷ []) 0x4fc093e0
    ∷ case (0 ∷ 0 ∷ 31 ∷ 0 ∷ []) 0x4fdf9000
    ∷ case (0 ∷ 0 ∷ 15 ∷ 0 ∷ []) 0x4fcf9000
    ∷ case (0 ∷ 0 ∷ 16 ∷ 0 ∷ []) 0x4fd09000
    ∷ case (0 ∷ 0 ∷ 0 ∷ 1 ∷ []) 0x4fc09800
    ∷ case (17 ∷ 9 ∷ 26 ∷ 0 ∷ []) 0x4fda9131
    ∷ case (31 ∷ 31 ∷ 31 ∷ 1 ∷ []) 0x4fdf9bff
    ∷ []
