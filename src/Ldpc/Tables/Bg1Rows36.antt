-- ===== src/Ldpc/Tables/Bg1Rows36.antt =====
-- include/nr_bb/ldpc_bg_tables.hpp: rows 36 to 45 of `BG1_EDGES`.
use gunnchos_gpu_nr_baseband.Base.{List, [], ◌∷◌}
use gunnchos_gpu_nr_baseband.Ldpc.Tables.Edge.{BgEdge, edge}

unfoldable pub bg1_rows_36_45 : List BgEdge
bg1_rows_36_45 =
    edge 36 0 (37 ∷ 210 ∷ 259 ∷ 222 ∷ 216 ∷ 135 ∷ 6 ∷ 11 ∷ [])
    ∷ edge 36 14 (105 ∷ 313 ∷ 179 ∷ 157 ∷ 16 ∷ 15 ∷ 200 ∷ 207 ∷ [])
    ∷ edge 36 15 (51 ∷ 297 ∷ 178 ∷ 0 ∷ 0 ∷ 35 ∷ 177 ∷ 42 ∷ [])
    ∷ edge 36 18 (120 ∷ 21 ∷ 160 ∷ 6 ∷ 0 ∷ 188 ∷ 43 ∷ 100 ∷ [])
    ∷ edge 36 58 (0 ∷ 0 ∷ 0 ∷ 0 ∷ 0 ∷ 0 ∷ 0 ∷ 0 ∷ [])
    ∷ edge 37 1 (198 ∷ 269 ∷ 298 ∷ 81 ∷ 72 ∷ 319 ∷ 82 ∷ 59 ∷ [])
    ∷ edge 37 13 (220 ∷ 82 ∷ 15 ∷ 195 ∷ 144 ∷ 236 ∷ 2 ∷ 204 ∷ [])
    ∷ edge 37 23 (122 ∷ 115 ∷ 115 ∷ 138 ∷ 0 ∷ 85 ∷ 135 ∷ 161 ∷ [])
    ∷ edge 37 59 (0 ∷ 0 ∷ 0 ∷ 0 ∷ 0 ∷ 0 ∷ 0 ∷ 0 ∷ [])
    ∷ edge 38 0 (167 ∷ 185 ∷ 151 ∷ 123 ∷ 190 ∷ 164 ∷ 91 ∷ 121 ∷ [])
    ∷ edge 38 9 (151 ∷ 177 ∷ 179 ∷ 90 ∷ 0 ∷ 196 ∷ 64 ∷ 90 ∷ [])
    ∷ edge 38 10 (157 ∷ 289 ∷ 64 ∷ 73 ∷ 0 ∷ 209 ∷ 198 ∷ 26 ∷ [])
    ∷ edge 38 12 (163 ∷ 214 ∷ 181 ∷ 10 ∷ 0 ∷ 246 ∷ 100 ∷ 140 ∷ [])
    ∷ edge 38 60 (0 ∷ 0 ∷ 0 ∷ 0 ∷ 0 ∷ 0 ∷ 0 ∷ 0 ∷ [])
    ∷ edge 39 1 (173 ∷ 258 ∷ 102 ∷ 12 ∷ 153 ∷ 236 ∷ 4 ∷ 115 ∷ [])
    ∷ edge 39 3 (139 ∷ 93 ∷ 77 ∷ 77 ∷ 0 ∷ 264 ∷ 28 ∷ 188 ∷ [])
    ∷ edge 39 7 (149 ∷ 346 ∷ 192 ∷ 49 ∷ 165 ∷ 37 ∷ 109 ∷ 168 ∷ [])
    ∷ edge 39 19 (0 ∷ 297 ∷ 208 ∷ 114 ∷ 117 ∷ 272 ∷ 188 ∷ 52 ∷ [])
    ∷ edge 39 61 (0 ∷ 0 ∷ 0 ∷ 0 ∷ 0 ∷ 0 ∷ 0 ∷ 0 ∷ [])
    ∷ edge 40 0 (157 ∷ 175 ∷ 32 ∷ 67 ∷ 216 ∷ 304 ∷ 10 ∷ 4 ∷ [])
    ∷ edge 40 8 (137 ∷ 37 ∷ 80 ∷ 45 ∷ 144 ∷ 237 ∷ 84 ∷ 103 ∷ [])
    ∷ edge 40 17 (149 ∷ 312 ∷ 197 ∷ 96 ∷ 2 ∷ 135 ∷ 12 ∷ 30 ∷ [])
    ∷ edge 40 62 (0 ∷ 0 ∷ 0 ∷ 0 ∷ 0 ∷ 0 ∷ 0 ∷ 0 ∷ [])
    ∷ edge 41 1 (167 ∷ 52 ∷ 154 ∷ 23 ∷ 0 ∷ 123 ∷ 2 ∷ 53 ∷ [])
    ∷ edge 41 3 (173 ∷ 314 ∷ 47 ∷ 215 ∷ 0 ∷ 77 ∷ 75 ∷ 189 ∷ [])
    ∷ edge 41 9 (139 ∷ 139 ∷ 124 ∷ 60 ∷ 0 ∷ 25 ∷ 142 ∷ 215 ∷ [])
    ∷ edge 41 18 (151 ∷ 288 ∷ 207 ∷ 167 ∷ 183 ∷ 272 ∷ 128 ∷ 24 ∷ [])
    ∷ edge 41 63 (0 ∷ 0 ∷ 0 ∷ 0 ∷ 0 ∷ 0 ∷ 0 ∷ 0 ∷ [])
    ∷ edge 42 0 (149 ∷ 113 ∷ 226 ∷ 114 ∷ 27 ∷ 288 ∷ 163 ∷ 222 ∷ [])
    ∷ edge 42 4 (157 ∷ 14 ∷ 65 ∷ 91 ∷ 0 ∷ 83 ∷ 10 ∷ 170 ∷ [])
    ∷ edge 42 24 (137 ∷ 218 ∷ 126 ∷ 78 ∷ 35 ∷ 17 ∷ 162 ∷ 71 ∷ [])
    ∷ edge 42 64 (0 ∷ 0 ∷ 0 ∷ 0 ∷ 0 ∷ 0 ∷ 0 ∷ 0 ∷ [])
    ∷ edge 43 1 (151 ∷ 113 ∷ 228 ∷ 206 ∷ 52 ∷ 210 ∷ 1 ∷ 22 ∷ [])
    ∷ edge 43 16 (163 ∷ 132 ∷ 69 ∷ 22 ∷ 243 ∷ 3 ∷ 163 ∷ 127 ∷ [])
    ∷ edge 43 18 (173 ∷ 114 ∷ 176 ∷ 134 ∷ 0 ∷ 53 ∷ 99 ∷ 49 ∷ [])
    ∷ edge 43 25 (139 ∷ 168 ∷ 102 ∷ 161 ∷ 270 ∷ 167 ∷ 98 ∷ 125 ∷ [])
    ∷ edge 43 65 (0 ∷ 0 ∷ 0 ∷ 0 ∷ 0 ∷ 0 ∷ 0 ∷ 0 ∷ [])
    ∷ edge 44 0 (139 ∷ 80 ∷ 234 ∷ 84 ∷ 18 ∷ 79 ∷ 4 ∷ 191 ∷ [])
    ∷ edge 44 7 (157 ∷ 78 ∷ 227 ∷ 4 ∷ 0 ∷ 244 ∷ 6 ∷ 211 ∷ [])
    ∷ edge 44 9 (163 ∷ 163 ∷ 259 ∷ 9 ∷ 0 ∷ 293 ∷ 142 ∷ 187 ∷ [])
    ∷ edge 44 22 (173 ∷ 274 ∷ 260 ∷ 12 ∷ 57 ∷ 272 ∷ 3 ∷ 148 ∷ [])
    ∷ edge 44 66 (0 ∷ 0 ∷ 0 ∷ 0 ∷ 0 ∷ 0 ∷ 0 ∷ 0 ∷ [])
    ∷ edge 45 1 (149 ∷ 135 ∷ 101 ∷ 184 ∷ 168 ∷ 82 ∷ 181 ∷ 177 ∷ [])
    ∷ edge 45 6 (151 ∷ 149 ∷ 228 ∷ 121 ∷ 0 ∷ 67 ∷ 45 ∷ 114 ∷ [])
    ∷ edge 45 10 (167 ∷ 15 ∷ 126 ∷ 29 ∷ 144 ∷ 235 ∷ 153 ∷ 93 ∷ [])
    ∷ edge 45 67 (0 ∷ 0 ∷ 0 ∷ 0 ∷ 0 ∷ 0 ∷ 0 ∷ 0 ∷ [])
    ∷ []
