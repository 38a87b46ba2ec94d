-- ===== src/Ldpc/Tables/Bg1Rows12.antt =====
-- include/nr_bb/ldpc_bg_tables.hpp: rows 12 to 23 of `BG1_EDGES`.
use gunnchos_gpu_nr_baseband.Base.{List, [], ◌∷◌}
use gunnchos_gpu_nr_baseband.Ldpc.Tables.Edge.{BgEdge, edge}

unfoldable pub bg1_rows_12_23 : List BgEdge
bg1_rows_12_23 =
    edge 12 0 (160 ∷ 77 ∷ 229 ∷ 142 ∷ 225 ∷ 123 ∷ 6 ∷ 186 ∷ [])
    ∷ edge 12 1 (42 ∷ 186 ∷ 235 ∷ 175 ∷ 162 ∷ 217 ∷ 20 ∷ 215 ∷ [])
    ∷ edge 12 10 (21 ∷ 174 ∷ 169 ∷ 136 ∷ 244 ∷ 142 ∷ 203 ∷ 124 ∷ [])
    ∷ edge 12 11 (32 ∷ 232 ∷ 48 ∷ 3 ∷ 151 ∷ 110 ∷ 153 ∷ 180 ∷ [])
    ∷ edge 12 13 (234 ∷ 50 ∷ 105 ∷ 28 ∷ 238 ∷ 176 ∷ 104 ∷ 98 ∷ [])
    ∷ edge 12 18 (7 ∷ 74 ∷ 52 ∷ 182 ∷ 243 ∷ 76 ∷ 207 ∷ 80 ∷ [])
    ∷ edge 12 34 (0 ∷ 0 ∷ 0 ∷ 0 ∷ 0 ∷ 0 ∷ 0 ∷ 0 ∷ [])
    ∷ edge 13 0 (177 ∷ 313 ∷ 39 ∷ 81 ∷ 231 ∷ 311 ∷ 52 ∷ 220 ∷ [])
    ∷ edge 13 3 (248 ∷ 177 ∷ 302 ∷ 56 ∷ 0 ∷ 251 ∷ 147 ∷ 185 ∷ [])
    ∷ edge 13 7 (151 ∷ 266 ∷ 303 ∷ 72 ∷ 216 ∷ 265 ∷ 1 ∷ 154 ∷ [])
    ∷ edge 13 20 (185 ∷ 115 ∷ 160 ∷ 217 ∷ 47 ∷ 94 ∷ 16 ∷ 178 ∷ [])
    ∷ edge 13 23 (62 ∷ 370 ∷ 37 ∷ 78 ∷ 36 ∷ 81 ∷ 46 ∷ 150 ∷ [])
    ∷ edge 13 35 (0 ∷ 0 ∷ 0 ∷ 0 ∷ 0 ∷ 0 ∷ 0 ∷ 0 ∷ [])
    ∷ edge 14 0 (206 ∷ 142 ∷ 78 ∷ 14 ∷ 0 ∷ 22 ∷ 1 ∷ 124 ∷ [])
    ∷ edge 14 12 (55 ∷ 248 ∷ 299 ∷ 175 ∷ 186 ∷ 322 ∷ 202 ∷ 144 ∷ [])
    ∷ edge 14 15 (206 ∷ 137 ∷ 54 ∷ 211 ∷ 253 ∷ 277 ∷ 118 ∷ 182 ∷ [])
    ∷ edge 14 16 (127 ∷ 89 ∷ 61 ∷ 191 ∷ 16 ∷ 156 ∷ 130 ∷ 95 ∷ [])
    ∷ edge 14 17 (16 ∷ 347 ∷ 179 ∷ 51 ∷ 0 ∷ 66 ∷ 1 ∷ 72 ∷ [])
    ∷ edge 14 21 (229 ∷ 12 ∷ 258 ∷ 43 ∷ 79 ∷ 78 ∷ 2 ∷ 76 ∷ [])
    ∷ edge 14 36 (0 ∷ 0 ∷ 0 ∷ 0 ∷ 0 ∷ 0 ∷ 0 ∷ 0 ∷ [])
    ∷ edge 15 0 (40 ∷ 241 ∷ 229 ∷ 90 ∷ 170 ∷ 176 ∷ 173 ∷ 39 ∷ [])
    ∷ edge 15 1 (96 ∷ 2 ∷ 290 ∷ 120 ∷ 0 ∷ 348 ∷ 6 ∷ 138 ∷ [])
    ∷ edge 15 10 (65 ∷ 210 ∷ 60 ∷ 131 ∷ 183 ∷ 15 ∷ 81 ∷ 220 ∷ [])
    ∷ edge 15 13 (63 ∷ 318 ∷ 130 ∷ 209 ∷ 108 ∷ 81 ∷ 182 ∷ 173 ∷ [])
    ∷ edge 15 18 (75 ∷ 55 ∷ 184 ∷ 209 ∷ 68 ∷ 176 ∷ 53 ∷ 142 ∷ [])
    ∷ edge 15 25 (179 ∷ 269 ∷ 51 ∷ 81 ∷ 64 ∷ 113 ∷ 46 ∷ 49 ∷ [])
    ∷ edge 15 37 (0 ∷ 0 ∷ 0 ∷ 0 ∷ 0 ∷ 0 ∷ 0 ∷ 0 ∷ [])
    ∷ edge 16 1 (64 ∷ 13 ∷ 69 ∷ 154 ∷ 270 ∷ 190 ∷ 88 ∷ 78 ∷ [])
    ∷ edge 16 3 (49 ∷ 338 ∷ 140 ∷ 164 ∷ 13 ∷ 293 ∷ 198 ∷ 152 ∷ [])
    ∷ edge 16 11 (49 ∷ 57 ∷ 45 ∷ 43 ∷ 99 ∷ 332 ∷ 160 ∷ 84 ∷ [])
    ∷ edge 16 20 (51 ∷ 289 ∷ 115 ∷ 189 ∷ 54 ∷ 331 ∷ 122 ∷ 5 ∷ [])
    ∷ edge 16 22 (154 ∷ 57 ∷ 300 ∷ 101 ∷ 0 ∷ 114 ∷ 182 ∷ 205 ∷ [])
    ∷ edge 16 38 (0 ∷ 0 ∷ 0 ∷ 0 ∷ 0 ∷ 0 ∷ 0 ∷ 0 ∷ [])
    ∷ edge 17 0 (7 ∷ 260 ∷ 257 ∷ 56 ∷ 153 ∷ 110 ∷ 91 ∷ 183 ∷ [])
    ∷ edge 17 14 (164 ∷ 303 ∷ 147 ∷ 110 ∷ 137 ∷ 228 ∷ 184 ∷ 112 ∷ [])
    ∷ edge 17 16 (59 ∷ 81 ∷ 128 ∷ 200 ∷ 0 ∷ 247 ∷ 30 ∷ 106 ∷ [])
    ∷ edge 17 17 (1 ∷ 358 ∷ 51 ∷ 63 ∷ 0 ∷ 116 ∷ 3 ∷ 219 ∷ [])
    ∷ edge 17 21 (144 ∷ 375 ∷ 228 ∷ 4 ∷ 162 ∷ 190 ∷ 155 ∷ 129 ∷ [])
    ∷ edge 17 39 (0 ∷ 0 ∷ 0 ∷ 0 ∷ 0 ∷ 0 ∷ 0 ∷ 0 ∷ [])
    ∷ edge 18 1 (42 ∷ 130 ∷ 260 ∷ 199 ∷ 161 ∷ 47 ∷ 1 ∷ 183 ∷ [])
    ∷ edge 18 12 (233 ∷ 163 ∷ 294 ∷ 110 ∷ 151 ∷ 286 ∷ 41 ∷ 215 ∷ [])
    ∷ edge 18 13 (8 ∷ 280 ∷ 291 ∷ 200 ∷ 0 ∷ 246 ∷ 167 ∷ 180 ∷ [])
    ∷ edge 18 18 (155 ∷ 132 ∷ 141 ∷ 143 ∷ 241 ∷ 181 ∷ 68 ∷ 143 ∷ [])
    ∷ edge 18 19 (147 ∷ 4 ∷ 295 ∷ 186 ∷ 144 ∷ 73 ∷ 148 ∷ 14 ∷ [])
    ∷ edge 18 40 (0 ∷ 0 ∷ 0 ∷ 0 ∷ 0 ∷ 0 ∷ 0 ∷ 0 ∷ [])
    ∷ edge 19 0 (60 ∷ 145 ∷ 64 ∷ 8 ∷ 0 ∷ 87 ∷ 12 ∷ 179 ∷ [])
    ∷ edge 19 1 (73 ∷ 213 ∷ 181 ∷ 6 ∷ 0 ∷ 110 ∷ 6 ∷ 108 ∷ [])
    ∷ edge 19 7 (72 ∷ 344 ∷ 101 ∷ 103 ∷ 118 ∷ 147 ∷ 166 ∷ 159 ∷ [])
    ∷ edge 19 8 (127 ∷ 242 ∷ 270 ∷ 198 ∷ 144 ∷ 258 ∷ 184 ∷ 138 ∷ [])
    ∷ edge 19 10 (224 ∷ 197 ∷ 41 ∷ 8 ∷ 0 ∷ 204 ∷ 191 ∷ 196 ∷ [])
    ∷ edge 19 41 (0 ∷ 0 ∷ 0 ∷ 0 ∷ 0 ∷ 0 ∷ 0 ∷ 0 ∷ [])
    ∷ edge 20 0 (151 ∷ 187 ∷ 301 ∷ 105 ∷ 265 ∷ 89 ∷ 6 ∷ 77 ∷ [])
    ∷ edge 20 3 (186 ∷ 206 ∷ 162 ∷ 210 ∷ 81 ∷ 65 ∷ 12 ∷ 187 ∷ [])
    ∷ edge 20 9 (217 ∷ 264 ∷ 40 ∷ 121 ∷ 90 ∷ 155 ∷ 15 ∷ 203 ∷ [])
    ∷ edge 20 11 (47 ∷ 341 ∷ 130 ∷ 214 ∷ 144 ∷ 244 ∷ 5 ∷ 167 ∷ [])
    ∷ edge 20 22 (160 ∷ 59 ∷ 10 ∷ 183 ∷ 228 ∷ 30 ∷ 30 ∷ 130 ∷ [])
    ∷ edge 20 42 (0 ∷ 0 ∷ 0 ∷ 0 ∷ 0 ∷ 0 ∷ 0 ∷ 0 ∷ [])
    ∷ edge 21 1 (249 ∷ 205 ∷ 79 ∷ 192 ∷ 64 ∷ 162 ∷ 6 ∷ 197 ∷ [])
    ∷ edge 21 5 (121 ∷ 102 ∷ 175 ∷ 131 ∷ 46 ∷ 264 ∷ 86 ∷ 122 ∷ [])
    ∷ edge 21 16 (109 ∷ 328 ∷ 132 ∷ 220 ∷ 266 ∷ 346 ∷ 96 ∷ 215 ∷ [])
    ∷ edge 21 20 (131 ∷ 213 ∷ 283 ∷ 50 ∷ 9 ∷ 143 ∷ 42 ∷ 65 ∷ [])
    ∷ edge 21 21 (171 ∷ 97 ∷ 103 ∷ 106 ∷ 18 ∷ 109 ∷ 199 ∷ 216 ∷ [])
    ∷ edge 21 43 (0 ∷ 0 ∷ 0 ∷ 0 ∷ 0 ∷ 0 ∷ 0 ∷ 0 ∷ [])
    ∷ edge 22 0 (64 ∷ 30 ∷ 177 ∷ 53 ∷ 72 ∷ 280 ∷ 44 ∷ 25 ∷ [])
    ∷ edge 22 12 (142 ∷ 11 ∷ 20 ∷ 0 ∷ 189 ∷ 157 ∷ 58 ∷ 47 ∷ [])
    ∷ edge 22 13 (188 ∷ 233 ∷ 55 ∷ 3 ∷ 72 ∷ 236 ∷ 130 ∷ 126 ∷ [])
    ∷ edge 22 17 (158 ∷ 22 ∷ 316 ∷ 148 ∷ 257 ∷ 113 ∷ 131 ∷ 178 ∷ [])
    ∷ edge 22 44 (0 ∷ 0 ∷ 0 ∷ 0 ∷ 0 ∷ 0 ∷ 0 ∷ 0 ∷ [])
    ∷ edge 23 1 (156 ∷ 24 ∷ 249 ∷ 88 ∷ 180 ∷ 18 ∷ 45 ∷ 185 ∷ [])
    ∷ edge 23 2 (147 ∷ 89 ∷ 50 ∷ 203 ∷ 0 ∷ 6 ∷ 18 ∷ 127 ∷ [])
    ∷ edge 23 10 (170 ∷ 61 ∷ 133 ∷ 168 ∷ 0 ∷ 181 ∷ 132 ∷ 117 ∷ [])
    ∷ edge 23 18 (152 ∷ 27 ∷ 105 ∷ 122 ∷ 165 ∷ 304 ∷ 100 ∷ 199 ∷ [])
    ∷ edge 23 45 (0 ∷ 0 ∷ 0 ∷ 0 ∷ 0 ∷ 0 ∷ 0 ∷ 0 ∷ [])
    ∷ []
