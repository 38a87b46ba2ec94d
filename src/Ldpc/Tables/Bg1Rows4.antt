-- ===== src/Ldpc/Tables/Bg1Rows4.antt =====
-- include/nr_bb/ldpc_bg_tables.hpp: rows 4 to 11 of `BG1_EDGES`.
use gunnchos_gpu_nr_baseband.Base.{List, [], ◌∷◌}
use gunnchos_gpu_nr_baseband.Ldpc.Tables.Edge.{BgEdge, edge}

unfoldable pub bg1_rows_4_11 : List BgEdge
bg1_rows_4_11 =
    edge 4 0 (157 ∷ 332 ∷ 233 ∷ 170 ∷ 246 ∷ 42 ∷ 24 ∷ 64 ∷ [])
    ∷ edge 4 1 (102 ∷ 181 ∷ 205 ∷ 10 ∷ 235 ∷ 256 ∷ 204 ∷ 211 ∷ [])
    ∷ edge 4 26 (0 ∷ 0 ∷ 0 ∷ 0 ∷ 0 ∷ 0 ∷ 0 ∷ 0 ∷ [])
    ∷ edge 5 0 (205 ∷ 195 ∷ 83 ∷ 164 ∷ 261 ∷ 219 ∷ 185 ∷ 2 ∷ [])
    ∷ edge 5 1 (236 ∷ 14 ∷ 292 ∷ 59 ∷ 181 ∷ 130 ∷ 100 ∷ 171 ∷ [])
    ∷ edge 5 3 (194 ∷ 115 ∷ 50 ∷ 86 ∷ 72 ∷ 251 ∷ 24 ∷ 47 ∷ [])
    ∷ edge 5 12 (231 ∷ 166 ∷ 318 ∷ 80 ∷ 283 ∷ 322 ∷ 65 ∷ 143 ∷ [])
    ∷ edge 5 16 (28 ∷ 241 ∷ 201 ∷ 182 ∷ 254 ∷ 295 ∷ 207 ∷ 210 ∷ [])
    ∷ edge 5 21 (123 ∷ 51 ∷ 267 ∷ 130 ∷ 79 ∷ 258 ∷ 161 ∷ 180 ∷ [])
    ∷ edge 5 22 (115 ∷ 157 ∷ 279 ∷ 153 ∷ 144 ∷ 283 ∷ 72 ∷ 180 ∷ [])
    ∷ edge 5 27 (0 ∷ 0 ∷ 0 ∷ 0 ∷ 0 ∷ 0 ∷ 0 ∷ 0 ∷ [])
    ∷ edge 6 0 (183 ∷ 278 ∷ 289 ∷ 158 ∷ 80 ∷ 294 ∷ 6 ∷ 199 ∷ [])
    ∷ edge 6 6 (22 ∷ 257 ∷ 21 ∷ 119 ∷ 144 ∷ 73 ∷ 27 ∷ 22 ∷ [])
    ∷ edge 6 10 (28 ∷ 1 ∷ 293 ∷ 113 ∷ 169 ∷ 330 ∷ 163 ∷ 23 ∷ [])
    ∷ edge 6 11 (67 ∷ 351 ∷ 13 ∷ 21 ∷ 90 ∷ 99 ∷ 50 ∷ 100 ∷ [])
    ∷ edge 6 13 (244 ∷ 92 ∷ 232 ∷ 63 ∷ 59 ∷ 172 ∷ 48 ∷ 92 ∷ [])
    ∷ edge 6 17 (11 ∷ 253 ∷ 302 ∷ 51 ∷ 177 ∷ 150 ∷ 24 ∷ 207 ∷ [])
    ∷ edge 6 18 (157 ∷ 18 ∷ 138 ∷ 136 ∷ 151 ∷ 284 ∷ 38 ∷ 52 ∷ [])
    ∷ edge 6 20 (211 ∷ 225 ∷ 235 ∷ 116 ∷ 108 ∷ 305 ∷ 91 ∷ 13 ∷ [])
    ∷ edge 6 28 (0 ∷ 0 ∷ 0 ∷ 0 ∷ 0 ∷ 0 ∷ 0 ∷ 0 ∷ [])
    ∷ edge 7 0 (220 ∷ 9 ∷ 12 ∷ 17 ∷ 169 ∷ 3 ∷ 145 ∷ 77 ∷ [])
    ∷ edge 7 1 (44 ∷ 62 ∷ 88 ∷ 76 ∷ 189 ∷ 103 ∷ 88 ∷ 146 ∷ [])
    ∷ edge 7 4 (159 ∷ 316 ∷ 207 ∷ 104 ∷ 154 ∷ 224 ∷ 112 ∷ 209 ∷ [])
    ∷ edge 7 7 (31 ∷ 333 ∷ 50 ∷ 100 ∷ 184 ∷ 297 ∷ 153 ∷ 32 ∷ [])
    ∷ edge 7 8 (167 ∷ 290 ∷ 25 ∷ 150 ∷ 104 ∷ 215 ∷ 159 ∷ 166 ∷ [])
    ∷ edge 7 14 (104 ∷ 114 ∷ 76 ∷ 158 ∷ 164 ∷ 39 ∷ 76 ∷ 18 ∷ [])
    ∷ edge 7 29 (0 ∷ 0 ∷ 0 ∷ 0 ∷ 0 ∷ 0 ∷ 0 ∷ 0 ∷ [])
    ∷ edge 8 0 (112 ∷ 307 ∷ 295 ∷ 33 ∷ 54 ∷ 348 ∷ 172 ∷ 181 ∷ [])
    ∷ edge 8 1 (4 ∷ 179 ∷ 133 ∷ 95 ∷ 0 ∷ 75 ∷ 2 ∷ 105 ∷ [])
    ∷ edge 8 3 (7 ∷ 165 ∷ 130 ∷ 4 ∷ 252 ∷ 22 ∷ 131 ∷ 141 ∷ [])
    ∷ edge 8 12 (211 ∷ 18 ∷ 231 ∷ 217 ∷ 41 ∷ 312 ∷ 141 ∷ 223 ∷ [])
    ∷ edge 8 16 (102 ∷ 39 ∷ 296 ∷ 204 ∷ 98 ∷ 224 ∷ 96 ∷ 177 ∷ [])
    ∷ edge 8 19 (164 ∷ 224 ∷ 110 ∷ 39 ∷ 46 ∷ 17 ∷ 99 ∷ 145 ∷ [])
    ∷ edge 8 21 (109 ∷ 368 ∷ 269 ∷ 58 ∷ 15 ∷ 59 ∷ 101 ∷ 199 ∷ [])
    ∷ edge 8 22 (241 ∷ 67 ∷ 245 ∷ 44 ∷ 230 ∷ 314 ∷ 35 ∷ 153 ∷ [])
    ∷ edge 8 24 (90 ∷ 170 ∷ 154 ∷ 201 ∷ 54 ∷ 244 ∷ 116 ∷ 38 ∷ [])
    ∷ edge 8 30 (0 ∷ 0 ∷ 0 ∷ 0 ∷ 0 ∷ 0 ∷ 0 ∷ 0 ∷ [])
    ∷ edge 9 0 (103 ∷ 366 ∷ 189 ∷ 9 ∷ 162 ∷ 156 ∷ 6 ∷ 169 ∷ [])
    ∷ edge 9 1 (182 ∷ 232 ∷ 244 ∷ 37 ∷ 159 ∷ 88 ∷ 10 ∷ 12 ∷ [])
    ∷ edge 9 10 (109 ∷ 321 ∷ 36 ∷ 213 ∷ 93 ∷ 293 ∷ 145 ∷ 206 ∷ [])
    ∷ edge 9 11 (21 ∷ 133 ∷ 286 ∷ 105 ∷ 134 ∷ 111 ∷ 53 ∷ 221 ∷ [])
    ∷ edge 9 13 (142 ∷ 57 ∷ 151 ∷ 89 ∷ 45 ∷ 92 ∷ 201 ∷ 17 ∷ [])
    ∷ edge 9 17 (14 ∷ 303 ∷ 267 ∷ 185 ∷ 132 ∷ 152 ∷ 4 ∷ 212 ∷ [])
    ∷ edge 9 18 (61 ∷ 63 ∷ 135 ∷ 109 ∷ 76 ∷ 23 ∷ 164 ∷ 92 ∷ [])
    ∷ edge 9 20 (216 ∷ 82 ∷ 209 ∷ 218 ∷ 209 ∷ 337 ∷ 173 ∷ 205 ∷ [])
    ∷ edge 9 31 (0 ∷ 0 ∷ 0 ∷ 0 ∷ 0 ∷ 0 ∷ 0 ∷ 0 ∷ [])
    ∷ edge 10 1 (98 ∷ 101 ∷ 14 ∷ 82 ∷ 178 ∷ 175 ∷ 126 ∷ 116 ∷ [])
    ∷ edge 10 2 (149 ∷ 339 ∷ 80 ∷ 165 ∷ 1 ∷ 253 ∷ 77 ∷ 151 ∷ [])
    ∷ edge 10 4 (167 ∷ 274 ∷ 211 ∷ 174 ∷ 28 ∷ 27 ∷ 156 ∷ 70 ∷ [])
    ∷ edge 10 7 (160 ∷ 111 ∷ 75 ∷ 19 ∷ 267 ∷ 231 ∷ 16 ∷ 230 ∷ [])
    ∷ edge 10 8 (49 ∷ 383 ∷ 161 ∷ 194 ∷ 234 ∷ 49 ∷ 12 ∷ 115 ∷ [])
    ∷ edge 10 14 (58 ∷ 354 ∷ 311 ∷ 103 ∷ 201 ∷ 267 ∷ 70 ∷ 84 ∷ [])
    ∷ edge 10 32 (0 ∷ 0 ∷ 0 ∷ 0 ∷ 0 ∷ 0 ∷ 0 ∷ 0 ∷ [])
    ∷ edge 11 0 (77 ∷ 48 ∷ 16 ∷ 52 ∷ 55 ∷ 25 ∷ 184 ∷ 45 ∷ [])
    ∷ edge 11 1 (41 ∷ 102 ∷ 147 ∷ 11 ∷ 23 ∷ 322 ∷ 194 ∷ 115 ∷ [])
    ∷ edge 11 12 (83 ∷ 8 ∷ 290 ∷ 2 ∷ 274 ∷ 200 ∷ 123 ∷ 134 ∷ [])
    ∷ edge 11 16 (182 ∷ 47 ∷ 289 ∷ 35 ∷ 181 ∷ 351 ∷ 16 ∷ 1 ∷ [])
    ∷ edge 11 21 (78 ∷ 188 ∷ 177 ∷ 32 ∷ 273 ∷ 166 ∷ 104 ∷ 152 ∷ [])
    ∷ edge 11 22 (252 ∷ 334 ∷ 43 ∷ 84 ∷ 39 ∷ 338 ∷ 109 ∷ 165 ∷ [])
    ∷ edge 11 23 (22 ∷ 115 ∷ 280 ∷ 201 ∷ 26 ∷ 192 ∷ 124 ∷ 107 ∷ [])
    ∷ edge 11 33 (0 ∷ 0 ∷ 0 ∷ 0 ∷ 0 ∷ 0 ∷ 0 ∷ 0 ∷ [])
    ∷ []
