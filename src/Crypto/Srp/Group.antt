-- ===== src/Crypto/Srp/Group.antt =====
-- crates/hap-crypto/src/srp.rs: the group of HAP, `HAP_N_3072` with the generator 5.
use hap_rust.Common.{ℕ, List, [], ◌∷◌, Result}
use hap_rust.Crypto.Types.{CryptoError}
use hap_rust.Crypto.Srp.{Arithmetic, SrpGroup, new_group}

-- 384 bytes, the most significant first.
unfoldable pub hap_n_3072 : List ℕ
hap_n_3072 =
    255 ∷ 255 ∷ 255 ∷ 255 ∷ 255 ∷ 255 ∷ 255 ∷ 255 ∷ 201 ∷ 15 ∷ 218 ∷ 162 ∷ 33 ∷ 104 ∷ 194 ∷ 52 ∷ 196
    ∷ 198 ∷ 98 ∷ 139 ∷ 128 ∷ 220 ∷ 28 ∷ 209 ∷ 41 ∷ 2 ∷ 78 ∷ 8 ∷ 138 ∷ 103 ∷ 204 ∷ 116 ∷ 2 ∷ 11 ∷ 190
    ∷ 166 ∷ 59 ∷ 19 ∷ 155 ∷ 34 ∷ 81 ∷ 74 ∷ 8 ∷ 121 ∷ 142 ∷ 52 ∷ 4 ∷ 221 ∷ 239 ∷ 149 ∷ 25 ∷ 179 ∷ 205
    ∷ 58 ∷ 67 ∷ 27 ∷ 48 ∷ 43 ∷ 10 ∷ 109 ∷ 242 ∷ 95 ∷ 20 ∷ 55 ∷ 79 ∷ 225 ∷ 53 ∷ 109 ∷ 109 ∷ 81 ∷ 194
    ∷ 69 ∷ 228 ∷ 133 ∷ 181 ∷ 118 ∷ 98 ∷ 94 ∷ 126 ∷ 198 ∷ 244 ∷ 76 ∷ 66 ∷ 233 ∷ 166 ∷ 55 ∷ 237 ∷ 107
    ∷ 11 ∷ 255 ∷ 92 ∷ 182 ∷ 244 ∷ 6 ∷ 183 ∷ 237 ∷ 238 ∷ 56 ∷ 107 ∷ 251 ∷ 90 ∷ 137 ∷ 159 ∷ 165 ∷ 174
    ∷ 159 ∷ 36 ∷ 17 ∷ 124 ∷ 75 ∷ 31 ∷ 230 ∷ 73 ∷ 40 ∷ 102 ∷ 81 ∷ 236 ∷ 228 ∷ 91 ∷ 61 ∷ 194 ∷ 0 ∷ 124
    ∷ 184 ∷ 161 ∷ 99 ∷ 191 ∷ 5 ∷ 152 ∷ 218 ∷ 72 ∷ 54 ∷ 28 ∷ 85 ∷ 211 ∷ 154 ∷ 105 ∷ 22 ∷ 63 ∷ 168
    ∷ 253 ∷ 36 ∷ 207 ∷ 95 ∷ 131 ∷ 101 ∷ 93 ∷ 35 ∷ 220 ∷ 163 ∷ 173 ∷ 150 ∷ 28 ∷ 98 ∷ 243 ∷ 86 ∷ 32
    ∷ 133 ∷ 82 ∷ 187 ∷ 158 ∷ 213 ∷ 41 ∷ 7 ∷ 112 ∷ 150 ∷ 150 ∷ 109 ∷ 103 ∷ 12 ∷ 53 ∷ 78 ∷ 74 ∷ 188
    ∷ 152 ∷ 4 ∷ 241 ∷ 116 ∷ 108 ∷ 8 ∷ 202 ∷ 24 ∷ 33 ∷ 124 ∷ 50 ∷ 144 ∷ 94 ∷ 70 ∷ 46 ∷ 54 ∷ 206 ∷ 59
    ∷ 227 ∷ 158 ∷ 119 ∷ 44 ∷ 24 ∷ 14 ∷ 134 ∷ 3 ∷ 155 ∷ 39 ∷ 131 ∷ 162 ∷ 236 ∷ 7 ∷ 162 ∷ 143 ∷ 181
    ∷ 197 ∷ 93 ∷ 240 ∷ 111 ∷ 76 ∷ 82 ∷ 201 ∷ 222 ∷ 43 ∷ 203 ∷ 246 ∷ 149 ∷ 88 ∷ 23 ∷ 24 ∷ 57 ∷ 149
    ∷ 73 ∷ 124 ∷ 234 ∷ 149 ∷ 106 ∷ 229 ∷ 21 ∷ 210 ∷ 38 ∷ 24 ∷ 152 ∷ 250 ∷ 5 ∷ 16 ∷ 21 ∷ 114 ∷ 142
    ∷ 90 ∷ 138 ∷ 170 ∷ 196 ∷ 45 ∷ 173 ∷ 51 ∷ 23 ∷ 13 ∷ 4 ∷ 80 ∷ 122 ∷ 51 ∷ 168 ∷ 85 ∷ 33 ∷ 171 ∷ 223
    ∷ 28 ∷ 186 ∷ 100 ∷ 236 ∷ 251 ∷ 133 ∷ 4 ∷ 88 ∷ 219 ∷ 239 ∷ 10 ∷ 138 ∷ 234 ∷ 113 ∷ 87 ∷ 93 ∷ 6
    ∷ 12 ∷ 125 ∷ 179 ∷ 151 ∷ 15 ∷ 133 ∷ 166 ∷ 225 ∷ 228 ∷ 199 ∷ 171 ∷ 245 ∷ 174 ∷ 140 ∷ 219 ∷ 9 ∷ 51
    ∷ 215 ∷ 30 ∷ 140 ∷ 148 ∷ 224 ∷ 74 ∷ 37 ∷ 97 ∷ 157 ∷ 206 ∷ 227 ∷ 210 ∷ 38 ∷ 26 ∷ 210 ∷ 238 ∷ 107
    ∷ 241 ∷ 47 ∷ 250 ∷ 6 ∷ 217 ∷ 138 ∷ 8 ∷ 100 ∷ 216 ∷ 118 ∷ 2 ∷ 115 ∷ 62 ∷ 200 ∷ 106 ∷ 100 ∷ 82
    ∷ 31 ∷ 43 ∷ 24 ∷ 23 ∷ 123 ∷ 32 ∷ 12 ∷ 187 ∷ 225 ∷ 23 ∷ 87 ∷ 122 ∷ 97 ∷ 93 ∷ 108 ∷ 119 ∷ 9 ∷ 136
    ∷ 192 ∷ 186 ∷ 217 ∷ 70 ∷ 226 ∷ 8 ∷ 226 ∷ 79 ∷ 160 ∷ 116 ∷ 229 ∷ 171 ∷ 49 ∷ 67 ∷ 219 ∷ 91 ∷ 252
    ∷ 224 ∷ 253 ∷ 16 ∷ 142 ∷ 75 ∷ 130 ∷ 209 ∷ 32 ∷ 169 ∷ 58 ∷ 210 ∷ 202 ∷ 255 ∷ 255 ∷ 255 ∷ 255
    ∷ 255 ∷ 255 ∷ 255 ∷ 255 ∷ []

unfoldable pub hap_group : Arithmetic → Result CryptoError SrpGroup
unfolding new_group
hap_group z = new_group z hap_n_3072 (5 ∷ [])
