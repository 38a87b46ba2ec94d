-- ===== src/Ldpc/Tables/Bg1Rows24.antt =====
-- include/nr_bb/ldpc_bg_tables.hpp: rows 24 to 35 of `BG1_EDGES`.
use gunnchos_gpu_nr_baseband.Base.{List, [], ◌∷◌}
use gunnchos_gpu_nr_baseband.Ldpc.Tables.Edge.{BgEdge, edge}

unfoldable pub bg1_rows_24_35 : List BgEdge
bg1_rows_24_35 =
    edge 24 0 (112 ∷ 298 ∷ 289 ∷ 49 ∷ 236 ∷ 38 ∷ 9 ∷ 32 ∷ [])
    ∷ edge 24 3 (86 ∷ 158 ∷ 280 ∷ 157 ∷ 199 ∷ 170 ∷ 125 ∷ 178 ∷ [])
    ∷ edge 24 4 (236 ∷ 235 ∷ 110 ∷ 64 ∷ 0 ∷ 249 ∷ 191 ∷ 2 ∷ [])
    ∷ edge 24 11 (116 ∷ 339 ∷ 187 ∷ 193 ∷ 266 ∷ 288 ∷ 28 ∷ 156 ∷ [])
    ∷ edge 24 22 (222 ∷ 234 ∷ 281 ∷ 124 ∷ 0 ∷ 194 ∷ 6 ∷ 58 ∷ [])
    ∷ edge 24 46 (0 ∷ 0 ∷ 0 ∷ 0 ∷ 0 ∷ 0 ∷ 0 ∷ 0 ∷ [])
    ∷ edge 25 1 (23 ∷ 72 ∷ 172 ∷ 1 ∷ 205 ∷ 279 ∷ 4 ∷ 27 ∷ [])
    ∷ edge 25 6 (136 ∷ 17 ∷ 295 ∷ 166 ∷ 0 ∷ 255 ∷ 74 ∷ 141 ∷ [])
    ∷ edge 25 7 (116 ∷ 383 ∷ 96 ∷ 65 ∷ 0 ∷ 111 ∷ 16 ∷ 11 ∷ [])
    ∷ edge 25 14 (182 ∷ 312 ∷ 46 ∷ 81 ∷ 183 ∷ 54 ∷ 28 ∷ 181 ∷ [])
    ∷ edge 25 47 (0 ∷ 0 ∷ 0 ∷ 0 ∷ 0 ∷ 0 ∷ 0 ∷ 0 ∷ [])
    ∷ edge 26 0 (195 ∷ 71 ∷ 270 ∷ 107 ∷ 0 ∷ 325 ∷ 21 ∷ 163 ∷ [])
    ∷ edge 26 2 (243 ∷ 81 ∷ 110 ∷ 176 ∷ 0 ∷ 326 ∷ 142 ∷ 131 ∷ [])
    ∷ edge 26 4 (215 ∷ 76 ∷ 318 ∷ 212 ∷ 0 ∷ 226 ∷ 192 ∷ 169 ∷ [])
    ∷ edge 26 15 (61 ∷ 136 ∷ 67 ∷ 127 ∷ 277 ∷ 99 ∷ 197 ∷ 98 ∷ [])
    ∷ edge 26 48 (0 ∷ 0 ∷ 0 ∷ 0 ∷ 0 ∷ 0 ∷ 0 ∷ 0 ∷ [])
    ∷ edge 27 1 (25 ∷ 194 ∷ 210 ∷ 208 ∷ 45 ∷ 91 ∷ 98 ∷ 165 ∷ [])
    ∷ edge 27 6 (104 ∷ 194 ∷ 29 ∷ 141 ∷ 36 ∷ 326 ∷ 140 ∷ 232 ∷ [])
    ∷ edge 27 8 (194 ∷ 101 ∷ 304 ∷ 174 ∷ 72 ∷ 268 ∷ 22 ∷ 9 ∷ [])
    ∷ edge 27 49 (0 ∷ 0 ∷ 0 ∷ 0 ∷ 0 ∷ 0 ∷ 0 ∷ 0 ∷ [])
    ∷ edge 28 0 (128 ∷ 222 ∷ 11 ∷ 146 ∷ 275 ∷ 102 ∷ 4 ∷ 32 ∷ [])
    ∷ edge 28 4 (165 ∷ 19 ∷ 293 ∷ 153 ∷ 0 ∷ 1 ∷ 1 ∷ 43 ∷ [])
    ∷ edge 28 19 (181 ∷ 244 ∷ 50 ∷ 217 ∷ 155 ∷ 40 ∷ 40 ∷ 200 ∷ [])
    ∷ edge 28 21 (63 ∷ 274 ∷ 234 ∷ 114 ∷ 62 ∷ 167 ∷ 93 ∷ 205 ∷ [])
    ∷ edge 28 50 (0 ∷ 0 ∷ 0 ∷ 0 ∷ 0 ∷ 0 ∷ 0 ∷ 0 ∷ [])
    ∷ edge 29 1 (86 ∷ 252 ∷ 27 ∷ 150 ∷ 0 ∷ 273 ∷ 92 ∷ 232 ∷ [])
    ∷ edge 29 14 (236 ∷ 5 ∷ 308 ∷ 11 ∷ 180 ∷ 104 ∷ 136 ∷ 32 ∷ [])
    ∷ edge 29 18 (84 ∷ 147 ∷ 117 ∷ 53 ∷ 0 ∷ 243 ∷ 106 ∷ 118 ∷ [])
    ∷ edge 29 25 (6 ∷ 78 ∷ 29 ∷ 68 ∷ 42 ∷ 107 ∷ 6 ∷ 103 ∷ [])
    ∷ edge 29 51 (0 ∷ 0 ∷ 0 ∷ 0 ∷ 0 ∷ 0 ∷ 0 ∷ 0 ∷ [])
    ∷ edge 30 0 (216 ∷ 159 ∷ 91 ∷ 34 ∷ 0 ∷ 171 ∷ 2 ∷ 170 ∷ [])
    ∷ edge 30 10 (73 ∷ 229 ∷ 23 ∷ 130 ∷ 90 ∷ 16 ∷ 88 ∷ 199 ∷ [])
    ∷ edge 30 13 (120 ∷ 260 ∷ 105 ∷ 210 ∷ 252 ∷ 95 ∷ 112 ∷ 26 ∷ [])
    ∷ edge 30 24 (9 ∷ 90 ∷ 135 ∷ 123 ∷ 173 ∷ 212 ∷ 20 ∷ 105 ∷ [])
    ∷ edge 30 52 (0 ∷ 0 ∷ 0 ∷ 0 ∷ 0 ∷ 0 ∷ 0 ∷ 0 ∷ [])
    ∷ edge 31 1 (95 ∷ 100 ∷ 222 ∷ 175 ∷ 144 ∷ 101 ∷ 4 ∷ 73 ∷ [])
    ∷ edge 31 7 (177 ∷ 215 ∷ 308 ∷ 49 ∷ 144 ∷ 297 ∷ 49 ∷ 149 ∷ [])
    ∷ edge 31 22 (172 ∷ 258 ∷ 66 ∷ 177 ∷ 166 ∷ 279 ∷ 125 ∷ 175 ∷ [])
    ∷ edge 31 25 (61 ∷ 256 ∷ 162 ∷ 128 ∷ 19 ∷ 222 ∷ 194 ∷ 108 ∷ [])
    ∷ edge 31 53 (0 ∷ 0 ∷ 0 ∷ 0 ∷ 0 ∷ 0 ∷ 0 ∷ 0 ∷ [])
    ∷ edge 32 0 (221 ∷ 102 ∷ 210 ∷ 192 ∷ 0 ∷ 351 ∷ 6 ∷ 103 ∷ [])
    ∷ edge 32 12 (112 ∷ 201 ∷ 22 ∷ 209 ∷ 211 ∷ 265 ∷ 126 ∷ 110 ∷ [])
    ∷ edge 32 14 (199 ∷ 175 ∷ 271 ∷ 58 ∷ 36 ∷ 338 ∷ 63 ∷ 151 ∷ [])
    ∷ edge 32 24 (121 ∷ 287 ∷ 217 ∷ 30 ∷ 162 ∷ 83 ∷ 20 ∷ 211 ∷ [])
    ∷ edge 32 54 (0 ∷ 0 ∷ 0 ∷ 0 ∷ 0 ∷ 0 ∷ 0 ∷ 0 ∷ [])
    ∷ edge 33 1 (2 ∷ 323 ∷ 170 ∷ 114 ∷ 0 ∷ 56 ∷ 10 ∷ 199 ∷ [])
    ∷ edge 33 2 (187 ∷ 8 ∷ 20 ∷ 49 ∷ 0 ∷ 304 ∷ 30 ∷ 132 ∷ [])
    ∷ edge 33 11 (41 ∷ 361 ∷ 140 ∷ 161 ∷ 76 ∷ 141 ∷ 6 ∷ 172 ∷ [])
    ∷ edge 33 21 (211 ∷ 105 ∷ 33 ∷ 137 ∷ 18 ∷ 101 ∷ 92 ∷ 65 ∷ [])
    ∷ edge 33 55 (0 ∷ 0 ∷ 0 ∷ 0 ∷ 0 ∷ 0 ∷ 0 ∷ 0 ∷ [])
    ∷ edge 34 0 (127 ∷ 230 ∷ 187 ∷ 82 ∷ 197 ∷ 60 ∷ 4 ∷ 161 ∷ [])
    ∷ edge 34 7 (167 ∷ 148 ∷ 296 ∷ 186 ∷ 0 ∷ 320 ∷ 153 ∷ 237 ∷ [])
    ∷ edge 34 15 (164 ∷ 202 ∷ 5 ∷ 68 ∷ 108 ∷ 112 ∷ 197 ∷ 142 ∷ [])
    ∷ edge 34 17 (159 ∷ 312 ∷ 44 ∷ 150 ∷ 0 ∷ 54 ∷ 155 ∷ 180 ∷ [])
    ∷ edge 34 56 (0 ∷ 0 ∷ 0 ∷ 0 ∷ 0 ∷ 0 ∷ 0 ∷ 0 ∷ [])
    ∷ edge 35 1 (161 ∷ 320 ∷ 207 ∷ 192 ∷ 199 ∷ 100 ∷ 4 ∷ 231 ∷ [])
    ∷ edge 35 6 (197 ∷ 335 ∷ 158 ∷ 173 ∷ 278 ∷ 210 ∷ 45 ∷ 174 ∷ [])
    ∷ edge 35 12 (207 ∷ 2 ∷ 55 ∷ 26 ∷ 0 ∷ 195 ∷ 168 ∷ 145 ∷ [])
    ∷ edge 35 22 (103 ∷ 266 ∷ 285 ∷ 187 ∷ 205 ∷ 268 ∷ 185 ∷ 100 ∷ [])
    ∷ edge 35 57 (0 ∷ 0 ∷ 0 ∷ 0 ∷ 0 ∷ 0 ∷ 0 ∷ 0 ∷ [])
    ∷ []
