-- ===== src/Proto/Qpack/Table.antt =====
-- src/proto/qpack_tables.inc: the static table and the Huffman code.
use wtquic.Base.{ℕ, List, [], ◌∷◌}

-- `wtq_qpack_static_entry_t`, each text with its length a list of bytes.
pub record Entry : Type 0 where
  pub name : List ℕ
  pub value : List ℕ

-- A row of `wtq_huff_lengths`.
pub record Row : Type 0 where
  pub bits : ℕ
  pub first_code : ℕ
  pub first_index : ℕ
  pub count : ℕ

abbrev pub huff_eos_bits : ℕ
huff_eos_bits = 30

abbrev row : ℕ → ℕ → ℕ → ℕ → Row
row bits first_code first_index count = record {
  bits = bits;
  first_code = first_code;
  first_index = first_index;
  count = count;
}

abbrev entry : List ℕ → List ℕ → Entry
entry name value = record { name = name; value = value }

abbrev pub huff_lengths : List Row
huff_lengths =
    row 5 0x00000000 0 10
    ∷ row 6 0x00000014 10 26
    ∷ row 7 0x0000005c 36 32
    ∷ row 8 0x000000f8 68 6
    ∷ row 10 0x000003f8 74 5
    ∷ row 11 0x000007fa 79 3
    ∷ row 12 0x00000ffa 82 2
    ∷ row 13 0x00001ff8 84 6
    ∷ row 14 0x00003ffc 90 2
    ∷ row 15 0x00007ffc 92 3
    ∷ row 19 0x0007fff0 95 3
    ∷ row 20 0x000fffe6 98 8
    ∷ row 21 0x001fffdc 106 13
    ∷ row 22 0x003fffd2 119 26
    ∷ row 23 0x007fffd8 145 29
    ∷ row 24 0x00ffffea 174 12
    ∷ row 25 0x01ffffec 186 4
    ∷ row 26 0x03ffffe0 190 15
    ∷ row 27 0x07ffffde 205 19
    ∷ row 28 0x0fffffe2 224 29
    ∷ row 30 0x3ffffffc 253 3
    ∷ []

abbrev pub huff_symbols : List ℕ
huff_symbols =
    48 ∷ 49 ∷ 50 ∷ 97 ∷ 99 ∷ 101 ∷ 105 ∷ 111 ∷ 115 ∷ 116 ∷ 32 ∷ 37 ∷ 45 ∷ 46 ∷ 47 ∷ 51 ∷ 52 ∷ 53
    ∷ 54 ∷ 55 ∷ 56 ∷ 57 ∷ 61 ∷ 65 ∷ 95 ∷ 98 ∷ 100 ∷ 102 ∷ 103 ∷ 104 ∷ 108 ∷ 109 ∷ 110 ∷ 112 ∷ 114
    ∷ 117 ∷ 58 ∷ 66 ∷ 67 ∷ 68 ∷ 69 ∷ 70 ∷ 71 ∷ 72 ∷ 73 ∷ 74 ∷ 75 ∷ 76 ∷ 77 ∷ 78 ∷ 79 ∷ 80 ∷ 81 ∷ 82
    ∷ 83 ∷ 84 ∷ 85 ∷ 86 ∷ 87 ∷ 89 ∷ 106 ∷ 107 ∷ 113 ∷ 118 ∷ 119 ∷ 120 ∷ 121 ∷ 122 ∷ 38 ∷ 42 ∷ 44
    ∷ 59 ∷ 88 ∷ 90 ∷ 33 ∷ 34 ∷ 40 ∷ 41 ∷ 63 ∷ 39 ∷ 43 ∷ 124 ∷ 35 ∷ 62 ∷ 0 ∷ 36 ∷ 64 ∷ 91 ∷ 93 ∷ 126
    ∷ 94 ∷ 125 ∷ 60 ∷ 96 ∷ 123 ∷ 92 ∷ 195 ∷ 208 ∷ 128 ∷ 130 ∷ 131 ∷ 162 ∷ 184 ∷ 194 ∷ 224 ∷ 226
    ∷ 153 ∷ 161 ∷ 167 ∷ 172 ∷ 176 ∷ 177 ∷ 179 ∷ 209 ∷ 216 ∷ 217 ∷ 227 ∷ 229 ∷ 230 ∷ 129 ∷ 132 ∷ 133
    ∷ 134 ∷ 136 ∷ 146 ∷ 154 ∷ 156 ∷ 160 ∷ 163 ∷ 164 ∷ 169 ∷ 170 ∷ 173 ∷ 178 ∷ 181 ∷ 185 ∷ 186 ∷ 187
    ∷ 189 ∷ 190 ∷ 196 ∷ 198 ∷ 228 ∷ 232 ∷ 233 ∷ 1 ∷ 135 ∷ 137 ∷ 138 ∷ 139 ∷ 140 ∷ 141 ∷ 143 ∷ 147
    ∷ 149 ∷ 150 ∷ 151 ∷ 152 ∷ 155 ∷ 157 ∷ 158 ∷ 165 ∷ 166 ∷ 168 ∷ 174 ∷ 175 ∷ 180 ∷ 182 ∷ 183 ∷ 188
    ∷ 191 ∷ 197 ∷ 231 ∷ 239 ∷ 9 ∷ 142 ∷ 144 ∷ 145 ∷ 148 ∷ 159 ∷ 171 ∷ 206 ∷ 215 ∷ 225 ∷ 236 ∷ 237
    ∷ 199 ∷ 207 ∷ 234 ∷ 235 ∷ 192 ∷ 193 ∷ 200 ∷ 201 ∷ 202 ∷ 205 ∷ 210 ∷ 213 ∷ 218 ∷ 219 ∷ 238 ∷ 240
    ∷ 242 ∷ 243 ∷ 255 ∷ 203 ∷ 204 ∷ 211 ∷ 212 ∷ 214 ∷ 221 ∷ 222 ∷ 223 ∷ 241 ∷ 244 ∷ 245 ∷ 246 ∷ 247
    ∷ 248 ∷ 250 ∷ 251 ∷ 252 ∷ 253 ∷ 254 ∷ 2 ∷ 3 ∷ 4 ∷ 5 ∷ 6 ∷ 7 ∷ 8 ∷ 11 ∷ 12 ∷ 14 ∷ 15 ∷ 16 ∷ 17
    ∷ 18 ∷ 19 ∷ 20 ∷ 21 ∷ 23 ∷ 24 ∷ 25 ∷ 26 ∷ 27 ∷ 28 ∷ 29 ∷ 30 ∷ 31 ∷ 127 ∷ 220 ∷ 249 ∷ 10 ∷ 13
    ∷ 22 ∷ []

unfoldable pub static_table : List Entry
static_table =
    entry (58 ∷ 97 ∷ 117 ∷ 116 ∷ 104 ∷ 111 ∷ 114 ∷ 105 ∷ 116 ∷ 121 ∷ []) ([])
    ∷ entry (58 ∷ 112 ∷ 97 ∷ 116 ∷ 104 ∷ []) (47 ∷ [])
    ∷ entry (97 ∷ 103 ∷ 101 ∷ []) (48 ∷ [])
    ∷ entry
        (99 ∷ 111 ∷ 110 ∷ 116 ∷ 101 ∷ 110 ∷ 116 ∷ 45 ∷ 100 ∷ 105 ∷ 115 ∷ 112 ∷ 111 ∷ 115 ∷ 105 ∷ 116
          ∷ 105 ∷ 111 ∷ 110 ∷ [])
        ([])
    ∷ entry (99 ∷ 111 ∷ 110 ∷ 116 ∷ 101 ∷ 110 ∷ 116 ∷ 45 ∷ 108 ∷ 101 ∷ 110 ∷ 103 ∷ 116 ∷ 104 ∷ [])
        (48 ∷ [])
    ∷ entry (99 ∷ 111 ∷ 111 ∷ 107 ∷ 105 ∷ 101 ∷ []) ([])
    ∷ entry (100 ∷ 97 ∷ 116 ∷ 101 ∷ []) ([])
    ∷ entry (101 ∷ 116 ∷ 97 ∷ 103 ∷ []) ([])
    ∷ entry
        (105 ∷ 102 ∷ 45 ∷ 109 ∷ 111 ∷ 100 ∷ 105 ∷ 102 ∷ 105 ∷ 101 ∷ 100 ∷ 45 ∷ 115 ∷ 105 ∷ 110 ∷ 99
          ∷ 101 ∷ [])
        ([])
    ∷ entry (105 ∷ 102 ∷ 45 ∷ 110 ∷ 111 ∷ 110 ∷ 101 ∷ 45 ∷ 109 ∷ 97 ∷ 116 ∷ 99 ∷ 104 ∷ []) ([])
    ∷ entry (108 ∷ 97 ∷ 115 ∷ 116 ∷ 45 ∷ 109 ∷ 111 ∷ 100 ∷ 105 ∷ 102 ∷ 105 ∷ 101 ∷ 100 ∷ []) ([])
    ∷ entry (108 ∷ 105 ∷ 110 ∷ 107 ∷ []) ([])
    ∷ entry (108 ∷ 111 ∷ 99 ∷ 97 ∷ 116 ∷ 105 ∷ 111 ∷ 110 ∷ []) ([])
    ∷ entry (114 ∷ 101 ∷ 102 ∷ 101 ∷ 114 ∷ 101 ∷ 114 ∷ []) ([])
    ∷ entry (115 ∷ 101 ∷ 116 ∷ 45 ∷ 99 ∷ 111 ∷ 111 ∷ 107 ∷ 105 ∷ 101 ∷ []) ([])
    ∷ entry (58 ∷ 109 ∷ 101 ∷ 116 ∷ 104 ∷ 111 ∷ 100 ∷ []) (67 ∷ 79 ∷ 78 ∷ 78 ∷ 69 ∷ 67 ∷ 84 ∷ [])
    ∷ entry (58 ∷ 109 ∷ 101 ∷ 116 ∷ 104 ∷ 111 ∷ 100 ∷ []) (68 ∷ 69 ∷ 76 ∷ 69 ∷ 84 ∷ 69 ∷ [])
    ∷ entry (58 ∷ 109 ∷ 101 ∷ 116 ∷ 104 ∷ 111 ∷ 100 ∷ []) (71 ∷ 69 ∷ 84 ∷ [])
    ∷ entry (58 ∷ 109 ∷ 101 ∷ 116 ∷ 104 ∷ 111 ∷ 100 ∷ []) (72 ∷ 69 ∷ 65 ∷ 68 ∷ [])
    ∷ entry (58 ∷ 109 ∷ 101 ∷ 116 ∷ 104 ∷ 111 ∷ 100 ∷ []) (79 ∷ 80 ∷ 84 ∷ 73 ∷ 79 ∷ 78 ∷ 83 ∷ [])
    ∷ entry (58 ∷ 109 ∷ 101 ∷ 116 ∷ 104 ∷ 111 ∷ 100 ∷ []) (80 ∷ 79 ∷ 83 ∷ 84 ∷ [])
    ∷ entry (58 ∷ 109 ∷ 101 ∷ 116 ∷ 104 ∷ 111 ∷ 100 ∷ []) (80 ∷ 85 ∷ 84 ∷ [])
    ∷ entry (58 ∷ 115 ∷ 99 ∷ 104 ∷ 101 ∷ 109 ∷ 101 ∷ []) (104 ∷ 116 ∷ 116 ∷ 112 ∷ [])
    ∷ entry (58 ∷ 115 ∷ 99 ∷ 104 ∷ 101 ∷ 109 ∷ 101 ∷ []) (104 ∷ 116 ∷ 116 ∷ 112 ∷ 115 ∷ [])
    ∷ entry (58 ∷ 115 ∷ 116 ∷ 97 ∷ 116 ∷ 117 ∷ 115 ∷ []) (49 ∷ 48 ∷ 51 ∷ [])
    ∷ entry (58 ∷ 115 ∷ 116 ∷ 97 ∷ 116 ∷ 117 ∷ 115 ∷ []) (50 ∷ 48 ∷ 48 ∷ [])
    ∷ entry (58 ∷ 115 ∷ 116 ∷ 97 ∷ 116 ∷ 117 ∷ 115 ∷ []) (51 ∷ 48 ∷ 52 ∷ [])
    ∷ entry (58 ∷ 115 ∷ 116 ∷ 97 ∷ 116 ∷ 117 ∷ 115 ∷ []) (52 ∷ 48 ∷ 52 ∷ [])
    ∷ entry (58 ∷ 115 ∷ 116 ∷ 97 ∷ 116 ∷ 117 ∷ 115 ∷ []) (53 ∷ 48 ∷ 51 ∷ [])
    ∷ entry (97 ∷ 99 ∷ 99 ∷ 101 ∷ 112 ∷ 116 ∷ []) (42 ∷ 47 ∷ 42 ∷ [])
    ∷ entry (97 ∷ 99 ∷ 99 ∷ 101 ∷ 112 ∷ 116 ∷ []) (
        97 ∷ 112 ∷ 112 ∷ 108 ∷ 105 ∷ 99 ∷ 97 ∷ 116 ∷ 105 ∷ 111 ∷ 110 ∷ 47 ∷ 100 ∷ 110 ∷ 115 ∷ 45
        ∷ 109 ∷ 101 ∷ 115 ∷ 115 ∷ 97 ∷ 103 ∷ 101 ∷ [])
    ∷ entry
        (97 ∷ 99 ∷ 99 ∷ 101 ∷ 112 ∷ 116 ∷ 45 ∷ 101 ∷ 110 ∷ 99 ∷ 111 ∷ 100 ∷ 105 ∷ 110 ∷ 103 ∷ [])
        (103 ∷ 122 ∷ 105 ∷ 112 ∷ 44 ∷ 32 ∷ 100 ∷ 101 ∷ 102 ∷ 108 ∷ 97 ∷ 116 ∷ 101 ∷ 44 ∷ 32 ∷ 98
          ∷ 114 ∷ [])
    ∷ entry (97 ∷ 99 ∷ 99 ∷ 101 ∷ 112 ∷ 116 ∷ 45 ∷ 114 ∷ 97 ∷ 110 ∷ 103 ∷ 101 ∷ 115 ∷ [])
        (98 ∷ 121 ∷ 116 ∷ 101 ∷ 115 ∷ [])
    ∷ entry
        (97 ∷ 99 ∷ 99 ∷ 101 ∷ 115 ∷ 115 ∷ 45 ∷ 99 ∷ 111 ∷ 110 ∷ 116 ∷ 114 ∷ 111 ∷ 108 ∷ 45 ∷ 97
          ∷ 108 ∷ 108 ∷ 111 ∷ 119 ∷ 45 ∷ 104 ∷ 101 ∷ 97 ∷ 100 ∷ 101 ∷ 114 ∷ 115 ∷ [])
        (99 ∷ 97 ∷ 99 ∷ 104 ∷ 101 ∷ 45 ∷ 99 ∷ 111 ∷ 110 ∷ 116 ∷ 114 ∷ 111 ∷ 108 ∷ [])
    ∷ entry
        (97 ∷ 99 ∷ 99 ∷ 101 ∷ 115 ∷ 115 ∷ 45 ∷ 99 ∷ 111 ∷ 110 ∷ 116 ∷ 114 ∷ 111 ∷ 108 ∷ 45 ∷ 97
          ∷ 108 ∷ 108 ∷ 111 ∷ 119 ∷ 45 ∷ 104 ∷ 101 ∷ 97 ∷ 100 ∷ 101 ∷ 114 ∷ 115 ∷ [])
        (99 ∷ 111 ∷ 110 ∷ 116 ∷ 101 ∷ 110 ∷ 116 ∷ 45 ∷ 116 ∷ 121 ∷ 112 ∷ 101 ∷ [])
    ∷ entry
        (97 ∷ 99 ∷ 99 ∷ 101 ∷ 115 ∷ 115 ∷ 45 ∷ 99 ∷ 111 ∷ 110 ∷ 116 ∷ 114 ∷ 111 ∷ 108 ∷ 45 ∷ 97
          ∷ 108 ∷ 108 ∷ 111 ∷ 119 ∷ 45 ∷ 111 ∷ 114 ∷ 105 ∷ 103 ∷ 105 ∷ 110 ∷ [])
        (42 ∷ [])
    ∷ entry (99 ∷ 97 ∷ 99 ∷ 104 ∷ 101 ∷ 45 ∷ 99 ∷ 111 ∷ 110 ∷ 116 ∷ 114 ∷ 111 ∷ 108 ∷ [])
        (109 ∷ 97 ∷ 120 ∷ 45 ∷ 97 ∷ 103 ∷ 101 ∷ 61 ∷ 48 ∷ [])
    ∷ entry (99 ∷ 97 ∷ 99 ∷ 104 ∷ 101 ∷ 45 ∷ 99 ∷ 111 ∷ 110 ∷ 116 ∷ 114 ∷ 111 ∷ 108 ∷ [])
        (109 ∷ 97 ∷ 120 ∷ 45 ∷ 97 ∷ 103 ∷ 101 ∷ 61 ∷ 50 ∷ 53 ∷ 57 ∷ 50 ∷ 48 ∷ 48 ∷ 48 ∷ [])
    ∷ entry (99 ∷ 97 ∷ 99 ∷ 104 ∷ 101 ∷ 45 ∷ 99 ∷ 111 ∷ 110 ∷ 116 ∷ 114 ∷ 111 ∷ 108 ∷ [])
        (109 ∷ 97 ∷ 120 ∷ 45 ∷ 97 ∷ 103 ∷ 101 ∷ 61 ∷ 54 ∷ 48 ∷ 52 ∷ 56 ∷ 48 ∷ 48 ∷ [])
    ∷ entry (99 ∷ 97 ∷ 99 ∷ 104 ∷ 101 ∷ 45 ∷ 99 ∷ 111 ∷ 110 ∷ 116 ∷ 114 ∷ 111 ∷ 108 ∷ [])
        (110 ∷ 111 ∷ 45 ∷ 99 ∷ 97 ∷ 99 ∷ 104 ∷ 101 ∷ [])
    ∷ entry (99 ∷ 97 ∷ 99 ∷ 104 ∷ 101 ∷ 45 ∷ 99 ∷ 111 ∷ 110 ∷ 116 ∷ 114 ∷ 111 ∷ 108 ∷ [])
        (110 ∷ 111 ∷ 45 ∷ 115 ∷ 116 ∷ 111 ∷ 114 ∷ 101 ∷ [])
    ∷ entry (99 ∷ 97 ∷ 99 ∷ 104 ∷ 101 ∷ 45 ∷ 99 ∷ 111 ∷ 110 ∷ 116 ∷ 114 ∷ 111 ∷ 108 ∷ []) (
        112 ∷ 117 ∷ 98 ∷ 108 ∷ 105 ∷ 99 ∷ 44 ∷ 32 ∷ 109 ∷ 97 ∷ 120 ∷ 45 ∷ 97 ∷ 103 ∷ 101 ∷ 61 ∷ 51
        ∷ 49 ∷ 53 ∷ 51 ∷ 54 ∷ 48 ∷ 48 ∷ 48 ∷ [])
    ∷ entry
        (99 ∷ 111 ∷ 110 ∷ 116 ∷ 101 ∷ 110 ∷ 116 ∷ 45 ∷ 101 ∷ 110 ∷ 99 ∷ 111 ∷ 100 ∷ 105 ∷ 110 ∷ 103
          ∷ [])
        (98 ∷ 114 ∷ [])
    ∷ entry
        (99 ∷ 111 ∷ 110 ∷ 116 ∷ 101 ∷ 110 ∷ 116 ∷ 45 ∷ 101 ∷ 110 ∷ 99 ∷ 111 ∷ 100 ∷ 105 ∷ 110 ∷ 103
          ∷ [])
        (103 ∷ 122 ∷ 105 ∷ 112 ∷ [])
    ∷ entry (99 ∷ 111 ∷ 110 ∷ 116 ∷ 101 ∷ 110 ∷ 116 ∷ 45 ∷ 116 ∷ 121 ∷ 112 ∷ 101 ∷ []) (
        97 ∷ 112 ∷ 112 ∷ 108 ∷ 105 ∷ 99 ∷ 97 ∷ 116 ∷ 105 ∷ 111 ∷ 110 ∷ 47 ∷ 100 ∷ 110 ∷ 115 ∷ 45
        ∷ 109 ∷ 101 ∷ 115 ∷ 115 ∷ 97 ∷ 103 ∷ 101 ∷ [])
    ∷ entry (99 ∷ 111 ∷ 110 ∷ 116 ∷ 101 ∷ 110 ∷ 116 ∷ 45 ∷ 116 ∷ 121 ∷ 112 ∷ 101 ∷ []) (
        97 ∷ 112 ∷ 112 ∷ 108 ∷ 105 ∷ 99 ∷ 97 ∷ 116 ∷ 105 ∷ 111 ∷ 110 ∷ 47 ∷ 106 ∷ 97 ∷ 118 ∷ 97
        ∷ 115 ∷ 99 ∷ 114 ∷ 105 ∷ 112 ∷ 116 ∷ [])
    ∷ entry (99 ∷ 111 ∷ 110 ∷ 116 ∷ 101 ∷ 110 ∷ 116 ∷ 45 ∷ 116 ∷ 121 ∷ 112 ∷ 101 ∷ []) (
        97 ∷ 112 ∷ 112 ∷ 108 ∷ 105 ∷ 99 ∷ 97 ∷ 116 ∷ 105 ∷ 111 ∷ 110 ∷ 47 ∷ 106 ∷ 115 ∷ 111 ∷ 110
        ∷ [])
    ∷ entry (99 ∷ 111 ∷ 110 ∷ 116 ∷ 101 ∷ 110 ∷ 116 ∷ 45 ∷ 116 ∷ 121 ∷ 112 ∷ 101 ∷ []) (
        97 ∷ 112 ∷ 112 ∷ 108 ∷ 105 ∷ 99 ∷ 97 ∷ 116 ∷ 105 ∷ 111 ∷ 110 ∷ 47 ∷ 120 ∷ 45 ∷ 119 ∷ 119
        ∷ 119 ∷ 45 ∷ 102 ∷ 111 ∷ 114 ∷ 109 ∷ 45 ∷ 117 ∷ 114 ∷ 108 ∷ 101 ∷ 110 ∷ 99 ∷ 111 ∷ 100 ∷ 101
        ∷ 100 ∷ [])
    ∷ entry (99 ∷ 111 ∷ 110 ∷ 116 ∷ 101 ∷ 110 ∷ 116 ∷ 45 ∷ 116 ∷ 121 ∷ 112 ∷ 101 ∷ [])
        (105 ∷ 109 ∷ 97 ∷ 103 ∷ 101 ∷ 47 ∷ 103 ∷ 105 ∷ 102 ∷ [])
    ∷ entry (99 ∷ 111 ∷ 110 ∷ 116 ∷ 101 ∷ 110 ∷ 116 ∷ 45 ∷ 116 ∷ 121 ∷ 112 ∷ 101 ∷ [])
        (105 ∷ 109 ∷ 97 ∷ 103 ∷ 101 ∷ 47 ∷ 106 ∷ 112 ∷ 101 ∷ 103 ∷ [])
    ∷ entry (99 ∷ 111 ∷ 110 ∷ 116 ∷ 101 ∷ 110 ∷ 116 ∷ 45 ∷ 116 ∷ 121 ∷ 112 ∷ 101 ∷ [])
        (105 ∷ 109 ∷ 97 ∷ 103 ∷ 101 ∷ 47 ∷ 112 ∷ 110 ∷ 103 ∷ [])
    ∷ entry (99 ∷ 111 ∷ 110 ∷ 116 ∷ 101 ∷ 110 ∷ 116 ∷ 45 ∷ 116 ∷ 121 ∷ 112 ∷ 101 ∷ [])
        (116 ∷ 101 ∷ 120 ∷ 116 ∷ 47 ∷ 99 ∷ 115 ∷ 115 ∷ [])
    ∷ entry (99 ∷ 111 ∷ 110 ∷ 116 ∷ 101 ∷ 110 ∷ 116 ∷ 45 ∷ 116 ∷ 121 ∷ 112 ∷ 101 ∷ []) (
        116 ∷ 101 ∷ 120 ∷ 116 ∷ 47 ∷ 104 ∷ 116 ∷ 109 ∷ 108 ∷ 59 ∷ 32 ∷ 99 ∷ 104 ∷ 97 ∷ 114 ∷ 115
        ∷ 101 ∷ 116 ∷ 61 ∷ 117 ∷ 116 ∷ 102 ∷ 45 ∷ 56 ∷ [])
    ∷ entry (99 ∷ 111 ∷ 110 ∷ 116 ∷ 101 ∷ 110 ∷ 116 ∷ 45 ∷ 116 ∷ 121 ∷ 112 ∷ 101 ∷ [])
        (116 ∷ 101 ∷ 120 ∷ 116 ∷ 47 ∷ 112 ∷ 108 ∷ 97 ∷ 105 ∷ 110 ∷ [])
    ∷ entry (99 ∷ 111 ∷ 110 ∷ 116 ∷ 101 ∷ 110 ∷ 116 ∷ 45 ∷ 116 ∷ 121 ∷ 112 ∷ 101 ∷ []) (
        116 ∷ 101 ∷ 120 ∷ 116 ∷ 47 ∷ 112 ∷ 108 ∷ 97 ∷ 105 ∷ 110 ∷ 59 ∷ 99 ∷ 104 ∷ 97 ∷ 114 ∷ 115
        ∷ 101 ∷ 116 ∷ 61 ∷ 117 ∷ 116 ∷ 102 ∷ 45 ∷ 56 ∷ [])
    ∷ entry (114 ∷ 97 ∷ 110 ∷ 103 ∷ 101 ∷ []) (98 ∷ 121 ∷ 116 ∷ 101 ∷ 115 ∷ 61 ∷ 48 ∷ 45 ∷ [])
    ∷ entry
        (115 ∷ 116 ∷ 114 ∷ 105 ∷ 99 ∷ 116 ∷ 45 ∷ 116 ∷ 114 ∷ 97 ∷ 110 ∷ 115 ∷ 112 ∷ 111 ∷ 114 ∷ 116
          ∷ 45 ∷ 115 ∷ 101 ∷ 99 ∷ 117 ∷ 114 ∷ 105 ∷ 116 ∷ 121 ∷ [])
        (109 ∷ 97 ∷ 120 ∷ 45 ∷ 97 ∷ 103 ∷ 101 ∷ 61 ∷ 51 ∷ 49 ∷ 53 ∷ 51 ∷ 54 ∷ 48 ∷ 48 ∷ 48 ∷ [])
    ∷ entry
        (115 ∷ 116 ∷ 114 ∷ 105 ∷ 99 ∷ 116 ∷ 45 ∷ 116 ∷ 114 ∷ 97 ∷ 110 ∷ 115 ∷ 112 ∷ 111 ∷ 114 ∷ 116
          ∷ 45 ∷ 115 ∷ 101 ∷ 99 ∷ 117 ∷ 114 ∷ 105 ∷ 116 ∷ 121 ∷ [])
        (109 ∷ 97 ∷ 120 ∷ 45 ∷ 97 ∷ 103 ∷ 101 ∷ 61 ∷ 51 ∷ 49 ∷ 53 ∷ 51 ∷ 54 ∷ 48 ∷ 48 ∷ 48 ∷ 59 ∷ 32
          ∷ 105 ∷ 110 ∷ 99 ∷ 108 ∷ 117 ∷ 100 ∷ 101 ∷ 115 ∷ 117 ∷ 98 ∷ 100 ∷ 111 ∷ 109 ∷ 97 ∷ 105
          ∷ 110 ∷ 115 ∷ [])
    ∷ entry
        (115 ∷ 116 ∷ 114 ∷ 105 ∷ 99 ∷ 116 ∷ 45 ∷ 116 ∷ 114 ∷ 97 ∷ 110 ∷ 115 ∷ 112 ∷ 111 ∷ 114 ∷ 116
          ∷ 45 ∷ 115 ∷ 101 ∷ 99 ∷ 117 ∷ 114 ∷ 105 ∷ 116 ∷ 121 ∷ [])
        (109 ∷ 97 ∷ 120 ∷ 45 ∷ 97 ∷ 103 ∷ 101 ∷ 61 ∷ 51 ∷ 49 ∷ 53 ∷ 51 ∷ 54 ∷ 48 ∷ 48 ∷ 48 ∷ 59 ∷ 32
          ∷ 105 ∷ 110 ∷ 99 ∷ 108 ∷ 117 ∷ 100 ∷ 101 ∷ 115 ∷ 117 ∷ 98 ∷ 100 ∷ 111 ∷ 109 ∷ 97 ∷ 105
          ∷ 110 ∷ 115 ∷ 59 ∷ 32 ∷ 112 ∷ 114 ∷ 101 ∷ 108 ∷ 111 ∷ 97 ∷ 100 ∷ [])
    ∷ entry (118 ∷ 97 ∷ 114 ∷ 121 ∷ [])
        (97 ∷ 99 ∷ 99 ∷ 101 ∷ 112 ∷ 116 ∷ 45 ∷ 101 ∷ 110 ∷ 99 ∷ 111 ∷ 100 ∷ 105 ∷ 110 ∷ 103 ∷ [])
    ∷ entry (118 ∷ 97 ∷ 114 ∷ 121 ∷ []) (111 ∷ 114 ∷ 105 ∷ 103 ∷ 105 ∷ 110 ∷ [])
    ∷ entry
        (120 ∷ 45 ∷ 99 ∷ 111 ∷ 110 ∷ 116 ∷ 101 ∷ 110 ∷ 116 ∷ 45 ∷ 116 ∷ 121 ∷ 112 ∷ 101 ∷ 45 ∷ 111
          ∷ 112 ∷ 116 ∷ 105 ∷ 111 ∷ 110 ∷ 115 ∷ [])
        (110 ∷ 111 ∷ 115 ∷ 110 ∷ 105 ∷ 102 ∷ 102 ∷ [])
    ∷ entry
        (120 ∷ 45 ∷ 120 ∷ 115 ∷ 115 ∷ 45 ∷ 112 ∷ 114 ∷ 111 ∷ 116 ∷ 101 ∷ 99 ∷ 116 ∷ 105 ∷ 111 ∷ 110
          ∷ [])
        (49 ∷ 59 ∷ 32 ∷ 109 ∷ 111 ∷ 100 ∷ 101 ∷ 61 ∷ 98 ∷ 108 ∷ 111 ∷ 99 ∷ 107 ∷ [])
    ∷ entry (58 ∷ 115 ∷ 116 ∷ 97 ∷ 116 ∷ 117 ∷ 115 ∷ []) (49 ∷ 48 ∷ 48 ∷ [])
    ∷ entry (58 ∷ 115 ∷ 116 ∷ 97 ∷ 116 ∷ 117 ∷ 115 ∷ []) (50 ∷ 48 ∷ 52 ∷ [])
    ∷ entry (58 ∷ 115 ∷ 116 ∷ 97 ∷ 116 ∷ 117 ∷ 115 ∷ []) (50 ∷ 48 ∷ 54 ∷ [])
    ∷ entry (58 ∷ 115 ∷ 116 ∷ 97 ∷ 116 ∷ 117 ∷ 115 ∷ []) (51 ∷ 48 ∷ 50 ∷ [])
    ∷ entry (58 ∷ 115 ∷ 116 ∷ 97 ∷ 116 ∷ 117 ∷ 115 ∷ []) (52 ∷ 48 ∷ 48 ∷ [])
    ∷ entry (58 ∷ 115 ∷ 116 ∷ 97 ∷ 116 ∷ 117 ∷ 115 ∷ []) (52 ∷ 48 ∷ 51 ∷ [])
    ∷ entry (58 ∷ 115 ∷ 116 ∷ 97 ∷ 116 ∷ 117 ∷ 115 ∷ []) (52 ∷ 50 ∷ 49 ∷ [])
    ∷ entry (58 ∷ 115 ∷ 116 ∷ 97 ∷ 116 ∷ 117 ∷ 115 ∷ []) (52 ∷ 50 ∷ 53 ∷ [])
    ∷ entry (58 ∷ 115 ∷ 116 ∷ 97 ∷ 116 ∷ 117 ∷ 115 ∷ []) (53 ∷ 48 ∷ 48 ∷ [])
    ∷ entry (97 ∷ 99 ∷ 99 ∷ 101 ∷ 112 ∷ 116 ∷ 45 ∷ 108 ∷ 97 ∷ 110 ∷ 103 ∷ 117 ∷ 97 ∷ 103 ∷ 101 ∷ [])
        ([])
    ∷ entry
        (97 ∷ 99 ∷ 99 ∷ 101 ∷ 115 ∷ 115 ∷ 45 ∷ 99 ∷ 111 ∷ 110 ∷ 116 ∷ 114 ∷ 111 ∷ 108 ∷ 45 ∷ 97
          ∷ 108 ∷ 108 ∷ 111 ∷ 119 ∷ 45 ∷ 99 ∷ 114 ∷ 101 ∷ 100 ∷ 101 ∷ 110 ∷ 116 ∷ 105 ∷ 97 ∷ 108
          ∷ 115 ∷ [])
        (70 ∷ 65 ∷ 76 ∷ 83 ∷ 69 ∷ [])
    ∷ entry
        (97 ∷ 99 ∷ 99 ∷ 101 ∷ 115 ∷ 115 ∷ 45 ∷ 99 ∷ 111 ∷ 110 ∷ 116 ∷ 114 ∷ 111 ∷ 108 ∷ 45 ∷ 97
          ∷ 108 ∷ 108 ∷ 111 ∷ 119 ∷ 45 ∷ 99 ∷ 114 ∷ 101 ∷ 100 ∷ 101 ∷ 110 ∷ 116 ∷ 105 ∷ 97 ∷ 108
          ∷ 115 ∷ [])
        (84 ∷ 82 ∷ 85 ∷ 69 ∷ [])
    ∷ entry
        (97 ∷ 99 ∷ 99 ∷ 101 ∷ 115 ∷ 115 ∷ 45 ∷ 99 ∷ 111 ∷ 110 ∷ 116 ∷ 114 ∷ 111 ∷ 108 ∷ 45 ∷ 97
          ∷ 108 ∷ 108 ∷ 111 ∷ 119 ∷ 45 ∷ 104 ∷ 101 ∷ 97 ∷ 100 ∷ 101 ∷ 114 ∷ 115 ∷ [])
        (42 ∷ [])
    ∷ entry
        (97 ∷ 99 ∷ 99 ∷ 101 ∷ 115 ∷ 115 ∷ 45 ∷ 99 ∷ 111 ∷ 110 ∷ 116 ∷ 114 ∷ 111 ∷ 108 ∷ 45 ∷ 97
          ∷ 108 ∷ 108 ∷ 111 ∷ 119 ∷ 45 ∷ 109 ∷ 101 ∷ 116 ∷ 104 ∷ 111 ∷ 100 ∷ 115 ∷ [])
        (103 ∷ 101 ∷ 116 ∷ [])
    ∷ entry
        (97 ∷ 99 ∷ 99 ∷ 101 ∷ 115 ∷ 115 ∷ 45 ∷ 99 ∷ 111 ∷ 110 ∷ 116 ∷ 114 ∷ 111 ∷ 108 ∷ 45 ∷ 97
          ∷ 108 ∷ 108 ∷ 111 ∷ 119 ∷ 45 ∷ 109 ∷ 101 ∷ 116 ∷ 104 ∷ 111 ∷ 100 ∷ 115 ∷ [])
        (103 ∷ 101 ∷ 116 ∷ 44 ∷ 32 ∷ 112 ∷ 111 ∷ 115 ∷ 116 ∷ 44 ∷ 32 ∷ 111 ∷ 112 ∷ 116 ∷ 105 ∷ 111
          ∷ 110 ∷ 115 ∷ [])
    ∷ entry
        (97 ∷ 99 ∷ 99 ∷ 101 ∷ 115 ∷ 115 ∷ 45 ∷ 99 ∷ 111 ∷ 110 ∷ 116 ∷ 114 ∷ 111 ∷ 108 ∷ 45 ∷ 97
          ∷ 108 ∷ 108 ∷ 111 ∷ 119 ∷ 45 ∷ 109 ∷ 101 ∷ 116 ∷ 104 ∷ 111 ∷ 100 ∷ 115 ∷ [])
        (111 ∷ 112 ∷ 116 ∷ 105 ∷ 111 ∷ 110 ∷ 115 ∷ [])
    ∷ entry
        (97 ∷ 99 ∷ 99 ∷ 101 ∷ 115 ∷ 115 ∷ 45 ∷ 99 ∷ 111 ∷ 110 ∷ 116 ∷ 114 ∷ 111 ∷ 108 ∷ 45 ∷ 101
          ∷ 120 ∷ 112 ∷ 111 ∷ 115 ∷ 101 ∷ 45 ∷ 104 ∷ 101 ∷ 97 ∷ 100 ∷ 101 ∷ 114 ∷ 115 ∷ [])
        (99 ∷ 111 ∷ 110 ∷ 116 ∷ 101 ∷ 110 ∷ 116 ∷ 45 ∷ 108 ∷ 101 ∷ 110 ∷ 103 ∷ 116 ∷ 104 ∷ [])
    ∷ entry
        (97 ∷ 99 ∷ 99 ∷ 101 ∷ 115 ∷ 115 ∷ 45 ∷ 99 ∷ 111 ∷ 110 ∷ 116 ∷ 114 ∷ 111 ∷ 108 ∷ 45 ∷ 114
          ∷ 101 ∷ 113 ∷ 117 ∷ 101 ∷ 115 ∷ 116 ∷ 45 ∷ 104 ∷ 101 ∷ 97 ∷ 100 ∷ 101 ∷ 114 ∷ 115 ∷ [])
        (99 ∷ 111 ∷ 110 ∷ 116 ∷ 101 ∷ 110 ∷ 116 ∷ 45 ∷ 116 ∷ 121 ∷ 112 ∷ 101 ∷ [])
    ∷ entry
        (97 ∷ 99 ∷ 99 ∷ 101 ∷ 115 ∷ 115 ∷ 45 ∷ 99 ∷ 111 ∷ 110 ∷ 116 ∷ 114 ∷ 111 ∷ 108 ∷ 45 ∷ 114
          ∷ 101 ∷ 113 ∷ 117 ∷ 101 ∷ 115 ∷ 116 ∷ 45 ∷ 109 ∷ 101 ∷ 116 ∷ 104 ∷ 111 ∷ 100 ∷ [])
        (103 ∷ 101 ∷ 116 ∷ [])
    ∷ entry
        (97 ∷ 99 ∷ 99 ∷ 101 ∷ 115 ∷ 115 ∷ 45 ∷ 99 ∷ 111 ∷ 110 ∷ 116 ∷ 114 ∷ 111 ∷ 108 ∷ 45 ∷ 114
          ∷ 101 ∷ 113 ∷ 117 ∷ 101 ∷ 115 ∷ 116 ∷ 45 ∷ 109 ∷ 101 ∷ 116 ∷ 104 ∷ 111 ∷ 100 ∷ [])
        (112 ∷ 111 ∷ 115 ∷ 116 ∷ [])
    ∷ entry (97 ∷ 108 ∷ 116 ∷ 45 ∷ 115 ∷ 118 ∷ 99 ∷ []) (99 ∷ 108 ∷ 101 ∷ 97 ∷ 114 ∷ [])
    ∷ entry (97 ∷ 117 ∷ 116 ∷ 104 ∷ 111 ∷ 114 ∷ 105 ∷ 122 ∷ 97 ∷ 116 ∷ 105 ∷ 111 ∷ 110 ∷ []) ([])
    ∷ entry
        (99 ∷ 111 ∷ 110 ∷ 116 ∷ 101 ∷ 110 ∷ 116 ∷ 45 ∷ 115 ∷ 101 ∷ 99 ∷ 117 ∷ 114 ∷ 105 ∷ 116 ∷ 121
          ∷ 45 ∷ 112 ∷ 111 ∷ 108 ∷ 105 ∷ 99 ∷ 121 ∷ [])
        (115 ∷ 99 ∷ 114 ∷ 105 ∷ 112 ∷ 116 ∷ 45 ∷ 115 ∷ 114 ∷ 99 ∷ 32 ∷ 39 ∷ 110 ∷ 111 ∷ 110 ∷ 101
          ∷ 39 ∷ 59 ∷ 32 ∷ 111 ∷ 98 ∷ 106 ∷ 101 ∷ 99 ∷ 116 ∷ 45 ∷ 115 ∷ 114 ∷ 99 ∷ 32 ∷ 39 ∷ 110
          ∷ 111 ∷ 110 ∷ 101 ∷ 39 ∷ 59 ∷ 32 ∷ 98 ∷ 97 ∷ 115 ∷ 101 ∷ 45 ∷ 117 ∷ 114 ∷ 105 ∷ 32 ∷ 39
          ∷ 110 ∷ 111 ∷ 110 ∷ 101 ∷ 39 ∷ [])
    ∷ entry (101 ∷ 97 ∷ 114 ∷ 108 ∷ 121 ∷ 45 ∷ 100 ∷ 97 ∷ 116 ∷ 97 ∷ []) (49 ∷ [])
    ∷ entry (101 ∷ 120 ∷ 112 ∷ 101 ∷ 99 ∷ 116 ∷ 45 ∷ 99 ∷ 116 ∷ []) ([])
    ∷ entry (102 ∷ 111 ∷ 114 ∷ 119 ∷ 97 ∷ 114 ∷ 100 ∷ 101 ∷ 100 ∷ []) ([])
    ∷ entry (105 ∷ 102 ∷ 45 ∷ 114 ∷ 97 ∷ 110 ∷ 103 ∷ 101 ∷ []) ([])
    ∷ entry (111 ∷ 114 ∷ 105 ∷ 103 ∷ 105 ∷ 110 ∷ []) ([])
    ∷ entry (112 ∷ 117 ∷ 114 ∷ 112 ∷ 111 ∷ 115 ∷ 101 ∷ [])
        (112 ∷ 114 ∷ 101 ∷ 102 ∷ 101 ∷ 116 ∷ 99 ∷ 104 ∷ [])
    ∷ entry (115 ∷ 101 ∷ 114 ∷ 118 ∷ 101 ∷ 114 ∷ []) ([])
    ∷ entry
        (116 ∷ 105 ∷ 109 ∷ 105 ∷ 110 ∷ 103 ∷ 45 ∷ 97 ∷ 108 ∷ 108 ∷ 111 ∷ 119 ∷ 45 ∷ 111 ∷ 114 ∷ 105
          ∷ 103 ∷ 105 ∷ 110 ∷ [])
        (42 ∷ [])
    ∷ entry
        (117 ∷ 112 ∷ 103 ∷ 114 ∷ 97 ∷ 100 ∷ 101 ∷ 45 ∷ 105 ∷ 110 ∷ 115 ∷ 101 ∷ 99 ∷ 117 ∷ 114 ∷ 101
          ∷ 45 ∷ 114 ∷ 101 ∷ 113 ∷ 117 ∷ 101 ∷ 115 ∷ 116 ∷ 115 ∷ [])
        (49 ∷ [])
    ∷ entry (117 ∷ 115 ∷ 101 ∷ 114 ∷ 45 ∷ 97 ∷ 103 ∷ 101 ∷ 110 ∷ 116 ∷ []) ([])
    ∷ entry
        (120 ∷ 45 ∷ 102 ∷ 111 ∷ 114 ∷ 119 ∷ 97 ∷ 114 ∷ 100 ∷ 101 ∷ 100 ∷ 45 ∷ 102 ∷ 111 ∷ 114 ∷ [])
        ([])
    ∷ entry
        (120 ∷ 45 ∷ 102 ∷ 114 ∷ 97 ∷ 109 ∷ 101 ∷ 45 ∷ 111 ∷ 112 ∷ 116 ∷ 105 ∷ 111 ∷ 110 ∷ 115 ∷ [])
        (100 ∷ 101 ∷ 110 ∷ 121 ∷ [])
    ∷ entry
        (120 ∷ 45 ∷ 102 ∷ 114 ∷ 97 ∷ 109 ∷ 101 ∷ 45 ∷ 111 ∷ 112 ∷ 116 ∷ 105 ∷ 111 ∷ 110 ∷ 115 ∷ [])
        (115 ∷ 97 ∷ 109 ∷ 101 ∷ 111 ∷ 114 ∷ 105 ∷ 103 ∷ 105 ∷ 110 ∷ [])
    ∷ []
