-- ===== src/Ldpc/Tables/Bg2Rows20.antt =====
-- include/nr_bb/ldpc_bg_tables.hpp: rows 20 to 41 of `BG2_EDGES`.
use gunnchos_gpu_nr_baseband.Base.{List, [], ◌∷◌}
use gunnchos_gpu_nr_baseband.Ldpc.Tables.Edge.{BgEdge, edge}

unfoldable pub bg2_rows_20_41 : List BgEdge
bg2_rows_20_41 =
    edge 20 1 (26 ∷ 76 ∷ 0 ∷ 6 ∷ 2 ∷ 128 ∷ 196 ∷ 117 ∷ [])
    ∷ edge 20 4 (105 ∷ 61 ∷ 148 ∷ 20 ∷ 103 ∷ 52 ∷ 35 ∷ 227 ∷ [])
    ∷ edge 20 11 (29 ∷ 153 ∷ 104 ∷ 141 ∷ 78 ∷ 173 ∷ 114 ∷ 6 ∷ [])
    ∷ edge 20 30 (0 ∷ 0 ∷ 0 ∷ 0 ∷ 0 ∷ 0 ∷ 0 ∷ 0 ∷ [])
    ∷ edge 21 0 (76 ∷ 157 ∷ 0 ∷ 80 ∷ 91 ∷ 156 ∷ 10 ∷ 238 ∷ [])
    ∷ edge 21 8 (42 ∷ 175 ∷ 17 ∷ 43 ∷ 75 ∷ 166 ∷ 122 ∷ 13 ∷ [])
    ∷ edge 21 13 (210 ∷ 67 ∷ 33 ∷ 81 ∷ 81 ∷ 40 ∷ 23 ∷ 11 ∷ [])
    ∷ edge 21 31 (0 ∷ 0 ∷ 0 ∷ 0 ∷ 0 ∷ 0 ∷ 0 ∷ 0 ∷ [])
    ∷ edge 22 1 (222 ∷ 20 ∷ 0 ∷ 49 ∷ 54 ∷ 18 ∷ 202 ∷ 195 ∷ [])
    ∷ edge 22 2 (63 ∷ 52 ∷ 4 ∷ 1 ∷ 132 ∷ 163 ∷ 126 ∷ 44 ∷ [])
    ∷ edge 22 32 (0 ∷ 0 ∷ 0 ∷ 0 ∷ 0 ∷ 0 ∷ 0 ∷ 0 ∷ [])
    ∷ edge 23 0 (23 ∷ 106 ∷ 0 ∷ 156 ∷ 68 ∷ 110 ∷ 52 ∷ 5 ∷ [])
    ∷ edge 23 3 (235 ∷ 86 ∷ 75 ∷ 54 ∷ 115 ∷ 132 ∷ 170 ∷ 94 ∷ [])
    ∷ edge 23 5 (238 ∷ 95 ∷ 158 ∷ 134 ∷ 56 ∷ 150 ∷ 13 ∷ 111 ∷ [])
    ∷ edge 23 33 (0 ∷ 0 ∷ 0 ∷ 0 ∷ 0 ∷ 0 ∷ 0 ∷ 0 ∷ [])
    ∷ edge 24 1 (46 ∷ 182 ∷ 0 ∷ 153 ∷ 30 ∷ 113 ∷ 113 ∷ 81 ∷ [])
    ∷ edge 24 2 (139 ∷ 153 ∷ 69 ∷ 88 ∷ 42 ∷ 108 ∷ 161 ∷ 19 ∷ [])
    ∷ edge 24 9 (8 ∷ 64 ∷ 87 ∷ 63 ∷ 101 ∷ 61 ∷ 88 ∷ 130 ∷ [])
    ∷ edge 24 34 (0 ∷ 0 ∷ 0 ∷ 0 ∷ 0 ∷ 0 ∷ 0 ∷ 0 ∷ [])
    ∷ edge 25 0 (228 ∷ 45 ∷ 0 ∷ 211 ∷ 128 ∷ 72 ∷ 197 ∷ 66 ∷ [])
    ∷ edge 25 5 (156 ∷ 21 ∷ 65 ∷ 94 ∷ 63 ∷ 136 ∷ 194 ∷ 95 ∷ [])
    ∷ edge 25 35 (0 ∷ 0 ∷ 0 ∷ 0 ∷ 0 ∷ 0 ∷ 0 ∷ 0 ∷ [])
    ∷ edge 26 2 (29 ∷ 67 ∷ 0 ∷ 90 ∷ 142 ∷ 36 ∷ 164 ∷ 146 ∷ [])
    ∷ edge 26 7 (143 ∷ 137 ∷ 100 ∷ 6 ∷ 28 ∷ 38 ∷ 172 ∷ 66 ∷ [])
    ∷ edge 26 12 (160 ∷ 55 ∷ 13 ∷ 221 ∷ 100 ∷ 53 ∷ 49 ∷ 190 ∷ [])
    ∷ edge 26 13 (122 ∷ 85 ∷ 7 ∷ 6 ∷ 133 ∷ 145 ∷ 161 ∷ 86 ∷ [])
    ∷ edge 26 36 (0 ∷ 0 ∷ 0 ∷ 0 ∷ 0 ∷ 0 ∷ 0 ∷ 0 ∷ [])
    ∷ edge 27 0 (8 ∷ 103 ∷ 0 ∷ 27 ∷ 13 ∷ 42 ∷ 168 ∷ 64 ∷ [])
    ∷ edge 27 6 (151 ∷ 50 ∷ 32 ∷ 118 ∷ 10 ∷ 104 ∷ 193 ∷ 181 ∷ [])
    ∷ edge 27 37 (0 ∷ 0 ∷ 0 ∷ 0 ∷ 0 ∷ 0 ∷ 0 ∷ 0 ∷ [])
    ∷ edge 28 1 (98 ∷ 70 ∷ 0 ∷ 216 ∷ 106 ∷ 64 ∷ 14 ∷ 7 ∷ [])
    ∷ edge 28 2 (101 ∷ 111 ∷ 126 ∷ 212 ∷ 77 ∷ 24 ∷ 186 ∷ 144 ∷ [])
    ∷ edge 28 5 (135 ∷ 168 ∷ 110 ∷ 193 ∷ 43 ∷ 149 ∷ 46 ∷ 16 ∷ [])
    ∷ edge 28 38 (0 ∷ 0 ∷ 0 ∷ 0 ∷ 0 ∷ 0 ∷ 0 ∷ 0 ∷ [])
    ∷ edge 29 0 (18 ∷ 110 ∷ 0 ∷ 108 ∷ 133 ∷ 139 ∷ 50 ∷ 25 ∷ [])
    ∷ edge 29 4 (28 ∷ 17 ∷ 154 ∷ 61 ∷ 25 ∷ 161 ∷ 27 ∷ 57 ∷ [])
    ∷ edge 29 39 (0 ∷ 0 ∷ 0 ∷ 0 ∷ 0 ∷ 0 ∷ 0 ∷ 0 ∷ [])
    ∷ edge 30 2 (71 ∷ 120 ∷ 0 ∷ 106 ∷ 87 ∷ 84 ∷ 70 ∷ 37 ∷ [])
    ∷ edge 30 5 (240 ∷ 154 ∷ 35 ∷ 44 ∷ 56 ∷ 173 ∷ 17 ∷ 139 ∷ [])
    ∷ edge 30 7 (9 ∷ 52 ∷ 51 ∷ 185 ∷ 104 ∷ 93 ∷ 50 ∷ 221 ∷ [])
    ∷ edge 30 9 (84 ∷ 56 ∷ 134 ∷ 176 ∷ 70 ∷ 29 ∷ 6 ∷ 17 ∷ [])
    ∷ edge 30 40 (0 ∷ 0 ∷ 0 ∷ 0 ∷ 0 ∷ 0 ∷ 0 ∷ 0 ∷ [])
    ∷ edge 31 1 (106 ∷ 3 ∷ 0 ∷ 147 ∷ 80 ∷ 117 ∷ 115 ∷ 201 ∷ [])
    ∷ edge 31 13 (1 ∷ 170 ∷ 20 ∷ 182 ∷ 139 ∷ 148 ∷ 189 ∷ 46 ∷ [])
    ∷ edge 31 41 (0 ∷ 0 ∷ 0 ∷ 0 ∷ 0 ∷ 0 ∷ 0 ∷ 0 ∷ [])
    ∷ edge 32 0 (242 ∷ 84 ∷ 0 ∷ 108 ∷ 32 ∷ 116 ∷ 110 ∷ 179 ∷ [])
    ∷ edge 32 5 (44 ∷ 8 ∷ 20 ∷ 21 ∷ 89 ∷ 73 ∷ 0 ∷ 14 ∷ [])
    ∷ edge 32 12 (166 ∷ 17 ∷ 122 ∷ 110 ∷ 71 ∷ 142 ∷ 163 ∷ 116 ∷ [])
    ∷ edge 32 42 (0 ∷ 0 ∷ 0 ∷ 0 ∷ 0 ∷ 0 ∷ 0 ∷ 0 ∷ [])
    ∷ edge 33 2 (132 ∷ 165 ∷ 0 ∷ 71 ∷ 135 ∷ 105 ∷ 163 ∷ 46 ∷ [])
    ∷ edge 33 7 (164 ∷ 179 ∷ 88 ∷ 12 ∷ 6 ∷ 137 ∷ 173 ∷ 2 ∷ [])
    ∷ edge 33 10 (235 ∷ 124 ∷ 13 ∷ 109 ∷ 2 ∷ 29 ∷ 179 ∷ 106 ∷ [])
    ∷ edge 33 43 (0 ∷ 0 ∷ 0 ∷ 0 ∷ 0 ∷ 0 ∷ 0 ∷ 0 ∷ [])
    ∷ edge 34 0 (147 ∷ 173 ∷ 0 ∷ 29 ∷ 37 ∷ 11 ∷ 197 ∷ 184 ∷ [])
    ∷ edge 34 12 (85 ∷ 177 ∷ 19 ∷ 201 ∷ 25 ∷ 41 ∷ 191 ∷ 135 ∷ [])
    ∷ edge 34 13 (36 ∷ 12 ∷ 78 ∷ 69 ∷ 114 ∷ 162 ∷ 193 ∷ 141 ∷ [])
    ∷ edge 34 44 (0 ∷ 0 ∷ 0 ∷ 0 ∷ 0 ∷ 0 ∷ 0 ∷ 0 ∷ [])
    ∷ edge 35 1 (57 ∷ 77 ∷ 0 ∷ 91 ∷ 60 ∷ 126 ∷ 157 ∷ 85 ∷ [])
    ∷ edge 35 5 (40 ∷ 184 ∷ 157 ∷ 165 ∷ 137 ∷ 152 ∷ 167 ∷ 225 ∷ [])
    ∷ edge 35 11 (63 ∷ 18 ∷ 6 ∷ 55 ∷ 93 ∷ 172 ∷ 181 ∷ 175 ∷ [])
    ∷ edge 35 45 (0 ∷ 0 ∷ 0 ∷ 0 ∷ 0 ∷ 0 ∷ 0 ∷ 0 ∷ [])
    ∷ edge 36 0 (140 ∷ 25 ∷ 0 ∷ 1 ∷ 121 ∷ 73 ∷ 197 ∷ 178 ∷ [])
    ∷ edge 36 2 (38 ∷ 151 ∷ 63 ∷ 175 ∷ 129 ∷ 154 ∷ 167 ∷ 112 ∷ [])
    ∷ edge 36 7 (154 ∷ 170 ∷ 82 ∷ 83 ∷ 26 ∷ 129 ∷ 179 ∷ 106 ∷ [])
    ∷ edge 36 46 (0 ∷ 0 ∷ 0 ∷ 0 ∷ 0 ∷ 0 ∷ 0 ∷ 0 ∷ [])
    ∷ edge 37 10 (219 ∷ 37 ∷ 0 ∷ 40 ∷ 97 ∷ 167 ∷ 181 ∷ 154 ∷ [])
    ∷ edge 37 13 (151 ∷ 31 ∷ 144 ∷ 12 ∷ 56 ∷ 38 ∷ 193 ∷ 114 ∷ [])
    ∷ edge 37 47 (0 ∷ 0 ∷ 0 ∷ 0 ∷ 0 ∷ 0 ∷ 0 ∷ 0 ∷ [])
    ∷ edge 38 1 (31 ∷ 84 ∷ 0 ∷ 37 ∷ 1 ∷ 112 ∷ 157 ∷ 42 ∷ [])
    ∷ edge 38 5 (66 ∷ 151 ∷ 93 ∷ 97 ∷ 70 ∷ 7 ∷ 173 ∷ 41 ∷ [])
    ∷ edge 38 11 (38 ∷ 190 ∷ 19 ∷ 46 ∷ 1 ∷ 19 ∷ 191 ∷ 105 ∷ [])
    ∷ edge 38 48 (0 ∷ 0 ∷ 0 ∷ 0 ∷ 0 ∷ 0 ∷ 0 ∷ 0 ∷ [])
    ∷ edge 39 0 (239 ∷ 93 ∷ 0 ∷ 106 ∷ 119 ∷ 109 ∷ 181 ∷ 167 ∷ [])
    ∷ edge 39 7 (172 ∷ 132 ∷ 24 ∷ 181 ∷ 32 ∷ 6 ∷ 157 ∷ 45 ∷ [])
    ∷ edge 39 12 (34 ∷ 57 ∷ 138 ∷ 154 ∷ 142 ∷ 105 ∷ 173 ∷ 189 ∷ [])
    ∷ edge 39 49 (0 ∷ 0 ∷ 0 ∷ 0 ∷ 0 ∷ 0 ∷ 0 ∷ 0 ∷ [])
    ∷ edge 40 2 (0 ∷ 103 ∷ 0 ∷ 98 ∷ 6 ∷ 160 ∷ 193 ∷ 78 ∷ [])
    ∷ edge 40 10 (75 ∷ 107 ∷ 36 ∷ 35 ∷ 73 ∷ 156 ∷ 163 ∷ 67 ∷ [])
    ∷ edge 40 13 (120 ∷ 163 ∷ 143 ∷ 36 ∷ 102 ∷ 82 ∷ 179 ∷ 180 ∷ [])
    ∷ edge 40 50 (0 ∷ 0 ∷ 0 ∷ 0 ∷ 0 ∷ 0 ∷ 0 ∷ 0 ∷ [])
    ∷ edge 41 1 (129 ∷ 147 ∷ 0 ∷ 120 ∷ 48 ∷ 132 ∷ 191 ∷ 53 ∷ [])
    ∷ edge 41 5 (229 ∷ 7 ∷ 2 ∷ 101 ∷ 47 ∷ 6 ∷ 197 ∷ 215 ∷ [])
    ∷ edge 41 11 (118 ∷ 60 ∷ 55 ∷ 81 ∷ 19 ∷ 8 ∷ 167 ∷ 230 ∷ [])
    ∷ edge 41 51 (0 ∷ 0 ∷ 0 ∷ 0 ∷ 0 ∷ 0 ∷ 0 ∷ 0 ∷ [])
    ∷ []
