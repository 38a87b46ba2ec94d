-- ===== src/Ldpc/Tables/Bg2Rows6.antt =====
-- include/nr_bb/ldpc_bg_tables.hpp: rows 6 to 19 of `BG2_EDGES`.
use gunnchos_gpu_nr_baseband.Base.{List, [], ◌∷◌}
use gunnchos_gpu_nr_baseband.Ldpc.Tables.Edge.{BgEdge, edge}

unfoldable pub bg2_rows_6_19 : List BgEdge
bg2_rows_6_19 =
    edge 6 0 (155 ∷ 129 ∷ 0 ∷ 123 ∷ 109 ∷ 47 ∷ 7 ∷ 137 ∷ [])
    ∷ edge 6 5 (228 ∷ 92 ∷ 124 ∷ 55 ∷ 87 ∷ 154 ∷ 34 ∷ 72 ∷ [])
    ∷ edge 6 7 (45 ∷ 100 ∷ 99 ∷ 31 ∷ 107 ∷ 10 ∷ 198 ∷ 172 ∷ [])
    ∷ edge 6 9 (28 ∷ 49 ∷ 45 ∷ 222 ∷ 133 ∷ 155 ∷ 168 ∷ 124 ∷ [])
    ∷ edge 6 11 (158 ∷ 184 ∷ 148 ∷ 209 ∷ 139 ∷ 29 ∷ 12 ∷ 56 ∷ [])
    ∷ edge 6 16 (0 ∷ 0 ∷ 0 ∷ 0 ∷ 0 ∷ 0 ∷ 0 ∷ 0 ∷ [])
    ∷ edge 7 1 (129 ∷ 80 ∷ 0 ∷ 103 ∷ 97 ∷ 48 ∷ 163 ∷ 86 ∷ [])
    ∷ edge 7 5 (147 ∷ 186 ∷ 45 ∷ 13 ∷ 135 ∷ 125 ∷ 78 ∷ 186 ∷ [])
    ∷ edge 7 7 (140 ∷ 16 ∷ 148 ∷ 105 ∷ 35 ∷ 24 ∷ 143 ∷ 87 ∷ [])
    ∷ edge 7 11 (3 ∷ 102 ∷ 96 ∷ 150 ∷ 108 ∷ 47 ∷ 107 ∷ 172 ∷ [])
    ∷ edge 7 13 (116 ∷ 143 ∷ 78 ∷ 181 ∷ 65 ∷ 55 ∷ 58 ∷ 154 ∷ [])
    ∷ edge 7 17 (0 ∷ 0 ∷ 0 ∷ 0 ∷ 0 ∷ 0 ∷ 0 ∷ 0 ∷ [])
    ∷ edge 8 0 (142 ∷ 118 ∷ 0 ∷ 147 ∷ 70 ∷ 53 ∷ 101 ∷ 176 ∷ [])
    ∷ edge 8 1 (94 ∷ 70 ∷ 65 ∷ 43 ∷ 69 ∷ 31 ∷ 177 ∷ 169 ∷ [])
    ∷ edge 8 12 (230 ∷ 152 ∷ 87 ∷ 152 ∷ 88 ∷ 161 ∷ 22 ∷ 225 ∷ [])
    ∷ edge 8 18 (0 ∷ 0 ∷ 0 ∷ 0 ∷ 0 ∷ 0 ∷ 0 ∷ 0 ∷ [])
    ∷ edge 9 1 (203 ∷ 28 ∷ 0 ∷ 2 ∷ 97 ∷ 104 ∷ 186 ∷ 167 ∷ [])
    ∷ edge 9 8 (205 ∷ 132 ∷ 97 ∷ 30 ∷ 40 ∷ 142 ∷ 27 ∷ 238 ∷ [])
    ∷ edge 9 10 (61 ∷ 185 ∷ 51 ∷ 184 ∷ 24 ∷ 99 ∷ 205 ∷ 48 ∷ [])
    ∷ edge 9 11 (247 ∷ 178 ∷ 85 ∷ 83 ∷ 49 ∷ 64 ∷ 81 ∷ 68 ∷ [])
    ∷ edge 9 19 (0 ∷ 0 ∷ 0 ∷ 0 ∷ 0 ∷ 0 ∷ 0 ∷ 0 ∷ [])
    ∷ edge 10 0 (11 ∷ 59 ∷ 0 ∷ 174 ∷ 46 ∷ 111 ∷ 125 ∷ 38 ∷ [])
    ∷ edge 10 1 (185 ∷ 104 ∷ 17 ∷ 150 ∷ 41 ∷ 25 ∷ 60 ∷ 217 ∷ [])
    ∷ edge 10 6 (0 ∷ 22 ∷ 156 ∷ 8 ∷ 101 ∷ 174 ∷ 177 ∷ 208 ∷ [])
    ∷ edge 10 7 (117 ∷ 52 ∷ 20 ∷ 56 ∷ 96 ∷ 23 ∷ 51 ∷ 232 ∷ [])
    ∷ edge 10 20 (0 ∷ 0 ∷ 0 ∷ 0 ∷ 0 ∷ 0 ∷ 0 ∷ 0 ∷ [])
    ∷ edge 11 0 (11 ∷ 32 ∷ 0 ∷ 99 ∷ 28 ∷ 91 ∷ 39 ∷ 178 ∷ [])
    ∷ edge 11 7 (236 ∷ 92 ∷ 7 ∷ 138 ∷ 30 ∷ 175 ∷ 29 ∷ 214 ∷ [])
    ∷ edge 11 9 (210 ∷ 174 ∷ 4 ∷ 110 ∷ 116 ∷ 24 ∷ 35 ∷ 168 ∷ [])
    ∷ edge 11 13 (56 ∷ 154 ∷ 2 ∷ 99 ∷ 64 ∷ 141 ∷ 8 ∷ 51 ∷ [])
    ∷ edge 11 21 (0 ∷ 0 ∷ 0 ∷ 0 ∷ 0 ∷ 0 ∷ 0 ∷ 0 ∷ [])
    ∷ edge 12 1 (63 ∷ 39 ∷ 0 ∷ 46 ∷ 33 ∷ 122 ∷ 18 ∷ 124 ∷ [])
    ∷ edge 12 3 (111 ∷ 93 ∷ 113 ∷ 217 ∷ 122 ∷ 11 ∷ 155 ∷ 122 ∷ [])
    ∷ edge 12 11 (14 ∷ 11 ∷ 48 ∷ 109 ∷ 131 ∷ 4 ∷ 49 ∷ 72 ∷ [])
    ∷ edge 12 22 (0 ∷ 0 ∷ 0 ∷ 0 ∷ 0 ∷ 0 ∷ 0 ∷ 0 ∷ [])
    ∷ edge 13 0 (83 ∷ 49 ∷ 0 ∷ 37 ∷ 76 ∷ 29 ∷ 32 ∷ 48 ∷ [])
    ∷ edge 13 1 (2 ∷ 125 ∷ 112 ∷ 113 ∷ 37 ∷ 91 ∷ 53 ∷ 57 ∷ [])
    ∷ edge 13 8 (38 ∷ 35 ∷ 102 ∷ 143 ∷ 62 ∷ 27 ∷ 95 ∷ 167 ∷ [])
    ∷ edge 13 13 (222 ∷ 166 ∷ 26 ∷ 140 ∷ 47 ∷ 127 ∷ 186 ∷ 219 ∷ [])
    ∷ edge 13 23 (0 ∷ 0 ∷ 0 ∷ 0 ∷ 0 ∷ 0 ∷ 0 ∷ 0 ∷ [])
    ∷ edge 14 1 (115 ∷ 19 ∷ 0 ∷ 36 ∷ 143 ∷ 11 ∷ 91 ∷ 82 ∷ [])
    ∷ edge 14 6 (145 ∷ 118 ∷ 138 ∷ 95 ∷ 51 ∷ 145 ∷ 20 ∷ 232 ∷ [])
    ∷ edge 14 11 (3 ∷ 21 ∷ 57 ∷ 40 ∷ 130 ∷ 8 ∷ 52 ∷ 204 ∷ [])
    ∷ edge 14 13 (232 ∷ 163 ∷ 27 ∷ 116 ∷ 97 ∷ 166 ∷ 109 ∷ 162 ∷ [])
    ∷ edge 14 24 (0 ∷ 0 ∷ 0 ∷ 0 ∷ 0 ∷ 0 ∷ 0 ∷ 0 ∷ [])
    ∷ edge 15 0 (51 ∷ 68 ∷ 0 ∷ 116 ∷ 139 ∷ 137 ∷ 174 ∷ 38 ∷ [])
    ∷ edge 15 10 (175 ∷ 63 ∷ 73 ∷ 200 ∷ 96 ∷ 103 ∷ 108 ∷ 217 ∷ [])
    ∷ edge 15 11 (213 ∷ 81 ∷ 99 ∷ 110 ∷ 128 ∷ 40 ∷ 102 ∷ 157 ∷ [])
    ∷ edge 15 25 (0 ∷ 0 ∷ 0 ∷ 0 ∷ 0 ∷ 0 ∷ 0 ∷ 0 ∷ [])
    ∷ edge 16 1 (203 ∷ 87 ∷ 0 ∷ 75 ∷ 48 ∷ 78 ∷ 125 ∷ 170 ∷ [])
    ∷ edge 16 9 (142 ∷ 177 ∷ 79 ∷ 158 ∷ 9 ∷ 158 ∷ 31 ∷ 23 ∷ [])
    ∷ edge 16 11 (8 ∷ 135 ∷ 111 ∷ 134 ∷ 28 ∷ 17 ∷ 54 ∷ 175 ∷ [])
    ∷ edge 16 12 (242 ∷ 64 ∷ 143 ∷ 97 ∷ 8 ∷ 165 ∷ 176 ∷ 202 ∷ [])
    ∷ edge 16 26 (0 ∷ 0 ∷ 0 ∷ 0 ∷ 0 ∷ 0 ∷ 0 ∷ 0 ∷ [])
    ∷ edge 17 1 (254 ∷ 158 ∷ 0 ∷ 48 ∷ 120 ∷ 134 ∷ 57 ∷ 196 ∷ [])
    ∷ edge 17 5 (124 ∷ 23 ∷ 24 ∷ 132 ∷ 43 ∷ 23 ∷ 201 ∷ 173 ∷ [])
    ∷ edge 17 11 (114 ∷ 9 ∷ 109 ∷ 206 ∷ 65 ∷ 62 ∷ 142 ∷ 195 ∷ [])
    ∷ edge 17 12 (64 ∷ 6 ∷ 18 ∷ 2 ∷ 42 ∷ 163 ∷ 35 ∷ 218 ∷ [])
    ∷ edge 17 27 (0 ∷ 0 ∷ 0 ∷ 0 ∷ 0 ∷ 0 ∷ 0 ∷ 0 ∷ [])
    ∷ edge 18 0 (220 ∷ 186 ∷ 0 ∷ 68 ∷ 17 ∷ 173 ∷ 129 ∷ 128 ∷ [])
    ∷ edge 18 6 (194 ∷ 6 ∷ 18 ∷ 16 ∷ 106 ∷ 31 ∷ 203 ∷ 211 ∷ [])
    ∷ edge 18 7 (50 ∷ 46 ∷ 86 ∷ 156 ∷ 142 ∷ 22 ∷ 140 ∷ 210 ∷ [])
    ∷ edge 18 28 (0 ∷ 0 ∷ 0 ∷ 0 ∷ 0 ∷ 0 ∷ 0 ∷ 0 ∷ [])
    ∷ edge 19 0 (87 ∷ 58 ∷ 0 ∷ 35 ∷ 79 ∷ 13 ∷ 110 ∷ 39 ∷ [])
    ∷ edge 19 1 (20 ∷ 42 ∷ 158 ∷ 138 ∷ 28 ∷ 135 ∷ 124 ∷ 84 ∷ [])
    ∷ edge 19 10 (185 ∷ 156 ∷ 154 ∷ 86 ∷ 41 ∷ 145 ∷ 52 ∷ 88 ∷ [])
    ∷ edge 19 29 (0 ∷ 0 ∷ 0 ∷ 0 ∷ 0 ∷ 0 ∷ 0 ∷ 0 ∷ [])
    ∷ []
