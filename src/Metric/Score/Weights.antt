-- ===== src/Metric/Score/Weights.antt =====
-- src/ssimulacra2.cc, Msssim::Score: the table of the 108 weights, each literal as its digits m and
-- its number k of decimals, m * 10^-k.
use ssimulacra2_vulcan.Common.{ℕ, List, [], ◌∷◌}

unfoldable pub weight : List (ℕ × ℕ)
weight =
    (0, 0)
    ∷ (7376606707406586, 19)
    ∷ (0, 0)
    ∷ (0, 0)
    ∷ (7793481682867309, 19)
    ∷ (0, 0)
    ∷ (0, 0)
    ∷ (4371155730107379, 19)
    ∷ (0, 0)
    ∷ (11041726426657346, 16)
    ∷ (66284834129271, 17)
    ∷ (15231632783718752, 20)
    ∷ (0, 0)
    ∷ (16406437456599754, 19)
    ∷ (0, 0)
    ∷ (18422455520539298, 16)
    ∷ (11441172603757666, 15)
    ∷ (0, 0)
    ∷ (7989109436015163, 19)
    ∷ (176816438078653, 18)
    ∷ (0, 0)
    ∷ (18787594979546387, 16)
    ∷ (1094906990605142, 14)
    ∷ (0, 0)
    ∷ (7289346991508072, 19)
    ∷ (9677937080626833, 16)
    ∷ (0, 0)
    ∷ (14003424285435884, 20)
    ∷ (9981766977854967, 16)
    ∷ (31949755934435053, 20)
    ∷ (4550992113792063, 19)
    ∷ (0, 0)
    ∷ (0, 0)
    ∷ (13648766163243398, 19)
    ∷ (0, 0)
    ∷ (0, 0)
    ∷ (0, 0)
    ∷ (0, 0)
    ∷ (0, 0)
    ∷ (7466890328078848, 15)
    ∷ (0, 0)
    ∷ (17445833984131262, 15)
    ∷ (6235601634041466, 19)
    ∷ (0, 0)
    ∷ (0, 0)
    ∷ (6683678146179332, 15)
    ∷ (37724407979611296, 20)
    ∷ (1027889937768264, 15)
    ∷ (22520515300849274, 14)
    ∷ (0, 0)
    ∷ (0, 0)
    ∷ (19213238186143016, 15)
    ∷ (11401524586618361, 19)
    ∷ (1237755635509985, 18)
    ∷ (17639317598450694, 14)
    ∷ (0, 0)
    ∷ (0, 0)
    ∷ (2443300999870476, 14)
    ∷ (28520802612117757, 17)
    ∷ (4485436923833408, 19)
    ∷ (0, 0)
    ∷ (0, 0)
    ∷ (0, 0)
    ∷ (3477906344483772, 14)
    ∷ (44835625328877896, 15)
    ∷ (0, 0)
    ∷ (0, 0)
    ∷ (0, 0)
    ∷ (0, 0)
    ∷ (0, 0)
    ∷ (0, 0)
    ∷ (0, 0)
    ∷ (0, 0)
    ∷ (8680556573291698, 19)
    ∷ (0, 0)
    ∷ (0, 0)
    ∷ (0, 0)
    ∷ (0, 0)
    ∷ (0, 0)
    ∷ (5313191874358747, 19)
    ∷ (0, 0)
    ∷ (16533814161379112, 20)
    ∷ (0, 0)
    ∷ (0, 0)
    ∷ (0, 0)
    ∷ (0, 0)
    ∷ (0, 0)
    ∷ (4179171803251336, 19)
    ∷ (17290828234722833, 19)
    ∷ (0, 0)
    ∷ (20827005846636437, 19)
    ∷ (0, 0)
    ∷ (0, 0)
    ∷ (8826982764996862, 15)
    ∷ (2319243343998926, 14)
    ∷ (0, 0)
    ∷ (951080498811086, 13)
    ∷ (9863978034400682, 16)
    ∷ (9834382792465353, 16)
    ∷ (12286405048278493, 19)
    ∷ (1712667255897307, 13)
    ∷ (9807858872435379, 16)
    ∷ (0, 0)
    ∷ (0, 0)
    ∷ (0, 0)
    ∷ (5130064588990679, 19)
    ∷ (0, 0)
    ∷ (10854057858411537, 20)
    ∷ []
