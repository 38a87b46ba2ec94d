-- ===== src/Ldpc/Tables/Bg1Rows0.antt =====
-- include/nr_bb/ldpc_bg_tables.hpp: rows 0 to 3 of `BG1_EDGES`.
use gunnchos_gpu_nr_baseband.Base.{List, [], ◌∷◌}
use gunnchos_gpu_nr_baseband.Ldpc.Tables.Edge.{BgEdge, edge}

unfoldable pub bg1_rows_0_3 : List BgEdge
bg1_rows_0_3 =
    edge 0 0 (250 ∷ 307 ∷ 73 ∷ 223 ∷ 211 ∷ 294 ∷ 0 ∷ 135 ∷ [])
    ∷ edge 0 1 (69 ∷ 19 ∷ 15 ∷ 16 ∷ 198 ∷ 118 ∷ 0 ∷ 227 ∷ [])
    ∷ edge 0 2 (226 ∷ 50 ∷ 103 ∷ 94 ∷ 188 ∷ 167 ∷ 0 ∷ 126 ∷ [])
    ∷ edge 0 3 (159 ∷ 369 ∷ 49 ∷ 91 ∷ 186 ∷ 330 ∷ 0 ∷ 134 ∷ [])
    ∷ edge 0 5 (100 ∷ 181 ∷ 240 ∷ 74 ∷ 219 ∷ 207 ∷ 0 ∷ 84 ∷ [])
    ∷ edge 0 6 (10 ∷ 216 ∷ 39 ∷ 10 ∷ 4 ∷ 165 ∷ 0 ∷ 83 ∷ [])
    ∷ edge 0 9 (59 ∷ 317 ∷ 15 ∷ 0 ∷ 29 ∷ 243 ∷ 0 ∷ 53 ∷ [])
    ∷ edge 0 10 (229 ∷ 288 ∷ 162 ∷ 205 ∷ 144 ∷ 250 ∷ 0 ∷ 225 ∷ [])
    ∷ edge 0 11 (110 ∷ 109 ∷ 215 ∷ 216 ∷ 116 ∷ 1 ∷ 0 ∷ 205 ∷ [])
    ∷ edge 0 12 (191 ∷ 17 ∷ 164 ∷ 21 ∷ 216 ∷ 339 ∷ 0 ∷ 128 ∷ [])
    ∷ edge 0 13 (9 ∷ 357 ∷ 133 ∷ 215 ∷ 115 ∷ 201 ∷ 0 ∷ 75 ∷ [])
    ∷ edge 0 15 (195 ∷ 215 ∷ 298 ∷ 14 ∷ 233 ∷ 53 ∷ 0 ∷ 135 ∷ [])
    ∷ edge 0 16 (23 ∷ 106 ∷ 110 ∷ 70 ∷ 144 ∷ 347 ∷ 0 ∷ 217 ∷ [])
    ∷ edge 0 18 (190 ∷ 242 ∷ 113 ∷ 141 ∷ 95 ∷ 304 ∷ 0 ∷ 220 ∷ [])
    ∷ edge 0 19 (35 ∷ 180 ∷ 16 ∷ 198 ∷ 216 ∷ 167 ∷ 0 ∷ 90 ∷ [])
    ∷ edge 0 20 (239 ∷ 330 ∷ 189 ∷ 104 ∷ 73 ∷ 47 ∷ 0 ∷ 105 ∷ [])
    ∷ edge 0 21 (31 ∷ 346 ∷ 32 ∷ 81 ∷ 261 ∷ 188 ∷ 0 ∷ 137 ∷ [])
    ∷ edge 0 22 (1 ∷ 1 ∷ 1 ∷ 1 ∷ 1 ∷ 1 ∷ 0 ∷ 1 ∷ [])
    ∷ edge 0 23 (0 ∷ 0 ∷ 0 ∷ 0 ∷ 0 ∷ 0 ∷ 0 ∷ 0 ∷ [])
    ∷ edge 1 0 (2 ∷ 76 ∷ 303 ∷ 141 ∷ 179 ∷ 77 ∷ 22 ∷ 96 ∷ [])
    ∷ edge 1 2 (239 ∷ 76 ∷ 294 ∷ 45 ∷ 162 ∷ 225 ∷ 11 ∷ 236 ∷ [])
    ∷ edge 1 3 (117 ∷ 73 ∷ 27 ∷ 151 ∷ 223 ∷ 96 ∷ 124 ∷ 136 ∷ [])
    ∷ edge 1 4 (124 ∷ 288 ∷ 261 ∷ 46 ∷ 256 ∷ 338 ∷ 0 ∷ 221 ∷ [])
    ∷ edge 1 5 (71 ∷ 144 ∷ 161 ∷ 119 ∷ 160 ∷ 268 ∷ 10 ∷ 128 ∷ [])
    ∷ edge 1 7 (222 ∷ 331 ∷ 133 ∷ 157 ∷ 76 ∷ 112 ∷ 0 ∷ 92 ∷ [])
    ∷ edge 1 8 (104 ∷ 331 ∷ 4 ∷ 133 ∷ 202 ∷ 302 ∷ 0 ∷ 172 ∷ [])
    ∷ edge 1 9 (173 ∷ 178 ∷ 80 ∷ 87 ∷ 117 ∷ 50 ∷ 2 ∷ 56 ∷ [])
    ∷ edge 1 11 (220 ∷ 295 ∷ 129 ∷ 206 ∷ 109 ∷ 167 ∷ 16 ∷ 11 ∷ [])
    ∷ edge 1 12 (102 ∷ 342 ∷ 300 ∷ 93 ∷ 15 ∷ 253 ∷ 60 ∷ 189 ∷ [])
    ∷ edge 1 14 (109 ∷ 217 ∷ 76 ∷ 79 ∷ 72 ∷ 334 ∷ 0 ∷ 95 ∷ [])
    ∷ edge 1 15 (132 ∷ 99 ∷ 266 ∷ 9 ∷ 152 ∷ 242 ∷ 6 ∷ 85 ∷ [])
    ∷ edge 1 16 (142 ∷ 354 ∷ 72 ∷ 118 ∷ 158 ∷ 257 ∷ 30 ∷ 153 ∷ [])
    ∷ edge 1 17 (155 ∷ 114 ∷ 83 ∷ 194 ∷ 147 ∷ 133 ∷ 0 ∷ 87 ∷ [])
    ∷ edge 1 19 (255 ∷ 331 ∷ 260 ∷ 31 ∷ 156 ∷ 9 ∷ 168 ∷ 163 ∷ [])
    ∷ edge 1 21 (28 ∷ 112 ∷ 301 ∷ 187 ∷ 119 ∷ 302 ∷ 31 ∷ 216 ∷ [])
    ∷ edge 1 22 (0 ∷ 0 ∷ 0 ∷ 0 ∷ 0 ∷ 0 ∷ 105 ∷ 0 ∷ [])
    ∷ edge 1 23 (0 ∷ 0 ∷ 0 ∷ 0 ∷ 0 ∷ 0 ∷ 0 ∷ 0 ∷ [])
    ∷ edge 1 24 (0 ∷ 0 ∷ 0 ∷ 0 ∷ 0 ∷ 0 ∷ 0 ∷ 0 ∷ [])
    ∷ edge 2 0 (106 ∷ 205 ∷ 68 ∷ 207 ∷ 258 ∷ 226 ∷ 132 ∷ 189 ∷ [])
    ∷ edge 2 1 (111 ∷ 250 ∷ 7 ∷ 203 ∷ 167 ∷ 35 ∷ 37 ∷ 4 ∷ [])
    ∷ edge 2 2 (185 ∷ 328 ∷ 80 ∷ 31 ∷ 220 ∷ 213 ∷ 21 ∷ 225 ∷ [])
    ∷ edge 2 4 (63 ∷ 332 ∷ 280 ∷ 176 ∷ 133 ∷ 302 ∷ 180 ∷ 151 ∷ [])
    ∷ edge 2 5 (117 ∷ 256 ∷ 38 ∷ 180 ∷ 243 ∷ 111 ∷ 4 ∷ 236 ∷ [])
    ∷ edge 2 6 (93 ∷ 161 ∷ 227 ∷ 186 ∷ 202 ∷ 265 ∷ 149 ∷ 117 ∷ [])
    ∷ edge 2 7 (229 ∷ 267 ∷ 202 ∷ 95 ∷ 218 ∷ 128 ∷ 48 ∷ 179 ∷ [])
    ∷ edge 2 8 (177 ∷ 160 ∷ 200 ∷ 153 ∷ 63 ∷ 237 ∷ 38 ∷ 92 ∷ [])
    ∷ edge 2 9 (95 ∷ 63 ∷ 71 ∷ 177 ∷ 0 ∷ 294 ∷ 122 ∷ 24 ∷ [])
    ∷ edge 2 10 (39 ∷ 129 ∷ 106 ∷ 70 ∷ 3 ∷ 127 ∷ 195 ∷ 68 ∷ [])
    ∷ edge 2 13 (142 ∷ 200 ∷ 295 ∷ 77 ∷ 74 ∷ 110 ∷ 155 ∷ 6 ∷ [])
    ∷ edge 2 14 (225 ∷ 88 ∷ 283 ∷ 214 ∷ 229 ∷ 286 ∷ 28 ∷ 101 ∷ [])
    ∷ edge 2 15 (225 ∷ 53 ∷ 301 ∷ 77 ∷ 0 ∷ 125 ∷ 85 ∷ 33 ∷ [])
    ∷ edge 2 17 (245 ∷ 131 ∷ 184 ∷ 198 ∷ 216 ∷ 131 ∷ 47 ∷ 96 ∷ [])
    ∷ edge 2 18 (205 ∷ 240 ∷ 246 ∷ 117 ∷ 269 ∷ 163 ∷ 179 ∷ 125 ∷ [])
    ∷ edge 2 19 (251 ∷ 205 ∷ 230 ∷ 223 ∷ 200 ∷ 210 ∷ 42 ∷ 67 ∷ [])
    ∷ edge 2 20 (117 ∷ 13 ∷ 276 ∷ 90 ∷ 234 ∷ 7 ∷ 66 ∷ 230 ∷ [])
    ∷ edge 2 24 (0 ∷ 0 ∷ 0 ∷ 0 ∷ 0 ∷ 0 ∷ 0 ∷ 0 ∷ [])
    ∷ edge 2 25 (0 ∷ 0 ∷ 0 ∷ 0 ∷ 0 ∷ 0 ∷ 0 ∷ 0 ∷ [])
    ∷ edge 3 0 (121 ∷ 276 ∷ 220 ∷ 201 ∷ 187 ∷ 97 ∷ 4 ∷ 128 ∷ [])
    ∷ edge 3 1 (89 ∷ 87 ∷ 208 ∷ 18 ∷ 145 ∷ 94 ∷ 6 ∷ 23 ∷ [])
    ∷ edge 3 3 (84 ∷ 0 ∷ 30 ∷ 165 ∷ 166 ∷ 49 ∷ 33 ∷ 162 ∷ [])
    ∷ edge 3 4 (20 ∷ 275 ∷ 197 ∷ 5 ∷ 108 ∷ 279 ∷ 113 ∷ 220 ∷ [])
    ∷ edge 3 6 (150 ∷ 199 ∷ 61 ∷ 45 ∷ 82 ∷ 139 ∷ 49 ∷ 43 ∷ [])
    ∷ edge 3 7 (131 ∷ 153 ∷ 175 ∷ 142 ∷ 132 ∷ 166 ∷ 21 ∷ 186 ∷ [])
    ∷ edge 3 8 (243 ∷ 56 ∷ 79 ∷ 16 ∷ 197 ∷ 91 ∷ 6 ∷ 96 ∷ [])
    ∷ edge 3 10 (136 ∷ 132 ∷ 281 ∷ 34 ∷ 41 ∷ 106 ∷ 151 ∷ 1 ∷ [])
    ∷ edge 3 11 (86 ∷ 305 ∷ 303 ∷ 155 ∷ 162 ∷ 246 ∷ 83 ∷ 216 ∷ [])
    ∷ edge 3 12 (246 ∷ 231 ∷ 253 ∷ 213 ∷ 57 ∷ 345 ∷ 154 ∷ 22 ∷ [])
    ∷ edge 3 13 (219 ∷ 341 ∷ 164 ∷ 147 ∷ 36 ∷ 269 ∷ 87 ∷ 24 ∷ [])
    ∷ edge 3 14 (211 ∷ 212 ∷ 53 ∷ 69 ∷ 115 ∷ 185 ∷ 5 ∷ 167 ∷ [])
    ∷ edge 3 16 (240 ∷ 304 ∷ 44 ∷ 96 ∷ 242 ∷ 249 ∷ 92 ∷ 200 ∷ [])
    ∷ edge 3 17 (76 ∷ 300 ∷ 28 ∷ 74 ∷ 165 ∷ 215 ∷ 173 ∷ 32 ∷ [])
    ∷ edge 3 18 (244 ∷ 271 ∷ 77 ∷ 99 ∷ 0 ∷ 143 ∷ 120 ∷ 235 ∷ [])
    ∷ edge 3 20 (144 ∷ 39 ∷ 319 ∷ 30 ∷ 113 ∷ 121 ∷ 2 ∷ 172 ∷ [])
    ∷ edge 3 21 (12 ∷ 357 ∷ 68 ∷ 158 ∷ 108 ∷ 121 ∷ 142 ∷ 219 ∷ [])
    ∷ edge 3 22 (1 ∷ 1 ∷ 1 ∷ 1 ∷ 1 ∷ 1 ∷ 0 ∷ 1 ∷ [])
    ∷ edge 3 25 (0 ∷ 0 ∷ 0 ∷ 0 ∷ 0 ∷ 0 ∷ 0 ∷ 0 ∷ [])
    ∷ []
