-- ===== src/Ldpc/Tables/Bg2Rows0.antt =====
-- include/nr_bb/ldpc_bg_tables.hpp: rows 0 to 5 of `BG2_EDGES`.
use gunnchos_gpu_nr_baseband.Base.{List, [], ◌∷◌}
use gunnchos_gpu_nr_baseband.Ldpc.Tables.Edge.{BgEdge, edge}

unfoldable pub bg2_rows_0_5 : List BgEdge
bg2_rows_0_5 =
    edge 0 0 (9 ∷ 174 ∷ 0 ∷ 72 ∷ 3 ∷ 156 ∷ 143 ∷ 145 ∷ [])
    ∷ edge 0 1 (117 ∷ 97 ∷ 0 ∷ 110 ∷ 26 ∷ 143 ∷ 19 ∷ 131 ∷ [])
    ∷ edge 0 2 (204 ∷ 166 ∷ 0 ∷ 23 ∷ 53 ∷ 14 ∷ 176 ∷ 71 ∷ [])
    ∷ edge 0 3 (26 ∷ 66 ∷ 0 ∷ 181 ∷ 35 ∷ 3 ∷ 165 ∷ 21 ∷ [])
    ∷ edge 0 6 (189 ∷ 71 ∷ 0 ∷ 95 ∷ 115 ∷ 40 ∷ 196 ∷ 23 ∷ [])
    ∷ edge 0 9 (205 ∷ 172 ∷ 0 ∷ 8 ∷ 127 ∷ 123 ∷ 13 ∷ 112 ∷ [])
    ∷ edge 0 10 (0 ∷ 0 ∷ 0 ∷ 1 ∷ 0 ∷ 0 ∷ 0 ∷ 1 ∷ [])
    ∷ edge 0 11 (0 ∷ 0 ∷ 0 ∷ 0 ∷ 0 ∷ 0 ∷ 0 ∷ 0 ∷ [])
    ∷ edge 1 0 (167 ∷ 27 ∷ 137 ∷ 53 ∷ 19 ∷ 17 ∷ 18 ∷ 142 ∷ [])
    ∷ edge 1 3 (166 ∷ 36 ∷ 124 ∷ 156 ∷ 94 ∷ 65 ∷ 27 ∷ 174 ∷ [])
    ∷ edge 1 4 (253 ∷ 48 ∷ 0 ∷ 115 ∷ 104 ∷ 63 ∷ 3 ∷ 183 ∷ [])
    ∷ edge 1 5 (125 ∷ 92 ∷ 0 ∷ 156 ∷ 66 ∷ 1 ∷ 102 ∷ 27 ∷ [])
    ∷ edge 1 6 (226 ∷ 31 ∷ 88 ∷ 115 ∷ 84 ∷ 55 ∷ 185 ∷ 96 ∷ [])
    ∷ edge 1 7 (156 ∷ 187 ∷ 0 ∷ 200 ∷ 98 ∷ 37 ∷ 17 ∷ 23 ∷ [])
    ∷ edge 1 8 (224 ∷ 185 ∷ 0 ∷ 29 ∷ 69 ∷ 171 ∷ 14 ∷ 9 ∷ [])
    ∷ edge 1 9 (252 ∷ 3 ∷ 55 ∷ 31 ∷ 50 ∷ 133 ∷ 180 ∷ 167 ∷ [])
    ∷ edge 1 11 (0 ∷ 0 ∷ 0 ∷ 0 ∷ 0 ∷ 0 ∷ 0 ∷ 0 ∷ [])
    ∷ edge 1 12 (0 ∷ 0 ∷ 0 ∷ 0 ∷ 0 ∷ 0 ∷ 0 ∷ 0 ∷ [])
    ∷ edge 2 0 (81 ∷ 25 ∷ 20 ∷ 152 ∷ 95 ∷ 98 ∷ 126 ∷ 74 ∷ [])
    ∷ edge 2 1 (114 ∷ 114 ∷ 94 ∷ 131 ∷ 106 ∷ 168 ∷ 163 ∷ 31 ∷ [])
    ∷ edge 2 3 (44 ∷ 117 ∷ 99 ∷ 46 ∷ 92 ∷ 107 ∷ 47 ∷ 3 ∷ [])
    ∷ edge 2 4 (52 ∷ 110 ∷ 9 ∷ 191 ∷ 110 ∷ 82 ∷ 183 ∷ 53 ∷ [])
    ∷ edge 2 8 (240 ∷ 114 ∷ 108 ∷ 91 ∷ 111 ∷ 142 ∷ 132 ∷ 155 ∷ [])
    ∷ edge 2 10 (1 ∷ 1 ∷ 1 ∷ 0 ∷ 1 ∷ 1 ∷ 1 ∷ 0 ∷ [])
    ∷ edge 2 12 (0 ∷ 0 ∷ 0 ∷ 0 ∷ 0 ∷ 0 ∷ 0 ∷ 0 ∷ [])
    ∷ edge 2 13 (0 ∷ 0 ∷ 0 ∷ 0 ∷ 0 ∷ 0 ∷ 0 ∷ 0 ∷ [])
    ∷ edge 3 1 (8 ∷ 136 ∷ 38 ∷ 185 ∷ 120 ∷ 53 ∷ 36 ∷ 239 ∷ [])
    ∷ edge 3 2 (58 ∷ 175 ∷ 15 ∷ 6 ∷ 121 ∷ 174 ∷ 48 ∷ 171 ∷ [])
    ∷ edge 3 4 (158 ∷ 113 ∷ 102 ∷ 36 ∷ 22 ∷ 174 ∷ 18 ∷ 95 ∷ [])
    ∷ edge 3 5 (104 ∷ 72 ∷ 146 ∷ 124 ∷ 4 ∷ 127 ∷ 111 ∷ 110 ∷ [])
    ∷ edge 3 6 (209 ∷ 123 ∷ 12 ∷ 124 ∷ 73 ∷ 17 ∷ 203 ∷ 159 ∷ [])
    ∷ edge 3 7 (54 ∷ 118 ∷ 57 ∷ 110 ∷ 49 ∷ 89 ∷ 3 ∷ 199 ∷ [])
    ∷ edge 3 8 (18 ∷ 28 ∷ 53 ∷ 156 ∷ 128 ∷ 17 ∷ 191 ∷ 43 ∷ [])
    ∷ edge 3 9 (128 ∷ 186 ∷ 46 ∷ 133 ∷ 79 ∷ 105 ∷ 160 ∷ 75 ∷ [])
    ∷ edge 3 10 (0 ∷ 0 ∷ 0 ∷ 1 ∷ 0 ∷ 0 ∷ 0 ∷ 1 ∷ [])
    ∷ edge 3 13 (0 ∷ 0 ∷ 0 ∷ 0 ∷ 0 ∷ 0 ∷ 0 ∷ 0 ∷ [])
    ∷ edge 4 0 (179 ∷ 72 ∷ 0 ∷ 200 ∷ 42 ∷ 86 ∷ 43 ∷ 29 ∷ [])
    ∷ edge 4 1 (214 ∷ 74 ∷ 136 ∷ 16 ∷ 24 ∷ 67 ∷ 27 ∷ 140 ∷ [])
    ∷ edge 4 11 (71 ∷ 29 ∷ 157 ∷ 101 ∷ 51 ∷ 83 ∷ 117 ∷ 180 ∷ [])
    ∷ edge 4 14 (0 ∷ 0 ∷ 0 ∷ 0 ∷ 0 ∷ 0 ∷ 0 ∷ 0 ∷ [])
    ∷ edge 5 0 (231 ∷ 10 ∷ 0 ∷ 185 ∷ 40 ∷ 79 ∷ 136 ∷ 121 ∷ [])
    ∷ edge 5 1 (41 ∷ 44 ∷ 131 ∷ 138 ∷ 140 ∷ 84 ∷ 49 ∷ 41 ∷ [])
    ∷ edge 5 5 (194 ∷ 121 ∷ 142 ∷ 170 ∷ 84 ∷ 35 ∷ 36 ∷ 169 ∷ [])
    ∷ edge 5 7 (159 ∷ 80 ∷ 141 ∷ 219 ∷ 137 ∷ 103 ∷ 132 ∷ 88 ∷ [])
    ∷ edge 5 11 (103 ∷ 48 ∷ 64 ∷ 193 ∷ 71 ∷ 60 ∷ 62 ∷ 207 ∷ [])
    ∷ edge 5 15 (0 ∷ 0 ∷ 0 ∷ 0 ∷ 0 ∷ 0 ∷ 0 ∷ 0 ∷ [])
    ∷ []
