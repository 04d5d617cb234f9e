-- ===== src/Validate/Constants.antt =====
-- programs/sol-arb-executor/src/constants.rs: the keys of the programs as the bytes that `pubkey!`
-- decodes, the discriminators, and the limits on the bin arrays.
use sol_arb_executor.Prelude.{ℕ, List, [], ◌∷◌}

abbrev pub pump_swap_program_id : List ℕ
pump_swap_program_id =
    12 ∷ 20 ∷ 222 ∷ 252 ∷ 130 ∷ 94 ∷ 198 ∷ 118 ∷ 148 ∷ 37 ∷ 8 ∷ 24 ∷ 187 ∷ 101 ∷ 64 ∷ 101 ∷ 244 ∷ 41
    ∷ 141 ∷ 49 ∷ 86 ∷ 213 ∷ 113 ∷ 180 ∷ 212 ∷ 248 ∷ 9 ∷ 12 ∷ 24 ∷ 233 ∷ 168 ∷ 99 ∷ []

abbrev pub pump_program_id : List ℕ
pump_program_id =
    1 ∷ 86 ∷ 224 ∷ 246 ∷ 147 ∷ 102 ∷ 90 ∷ 207 ∷ 68 ∷ 219 ∷ 21 ∷ 104 ∷ 191 ∷ 23 ∷ 91 ∷ 170 ∷ 81 ∷ 137
    ∷ 203 ∷ 151 ∷ 245 ∷ 210 ∷ 255 ∷ 59 ∷ 101 ∷ 93 ∷ 43 ∷ 182 ∷ 253 ∷ 109 ∷ 24 ∷ 176 ∷ []

abbrev pub pump_fee_program_id : List ℕ
pump_fee_program_id =
    12 ∷ 53 ∷ 255 ∷ 169 ∷ 5 ∷ 90 ∷ 142 ∷ 86 ∷ 141 ∷ 168 ∷ 247 ∷ 188 ∷ 7 ∷ 86 ∷ 21 ∷ 39 ∷ 76 ∷ 241
    ∷ 201 ∷ 44 ∷ 164 ∷ 31 ∷ 64 ∷ 0 ∷ 156 ∷ 81 ∷ 106 ∷ 164 ∷ 20 ∷ 194 ∷ 124 ∷ 112 ∷ []

abbrev pub meteora_dlmm_program_id : List ℕ
meteora_dlmm_program_id =
    4 ∷ 233 ∷ 225 ∷ 47 ∷ 188 ∷ 132 ∷ 232 ∷ 38 ∷ 201 ∷ 50 ∷ 204 ∷ 233 ∷ 226 ∷ 100 ∷ 12 ∷ 206 ∷ 21
    ∷ 89 ∷ 12 ∷ 28 ∷ 98 ∷ 115 ∷ 176 ∷ 146 ∷ 87 ∷ 8 ∷ 186 ∷ 59 ∷ 133 ∷ 32 ∷ 176 ∷ 188 ∷ []

abbrev pub wsol_mint_key : List ℕ
wsol_mint_key =
    6 ∷ 155 ∷ 136 ∷ 87 ∷ 254 ∷ 171 ∷ 129 ∷ 132 ∷ 251 ∷ 104 ∷ 127 ∷ 99 ∷ 70 ∷ 24 ∷ 192 ∷ 53 ∷ 218
    ∷ 196 ∷ 57 ∷ 220 ∷ 26 ∷ 235 ∷ 59 ∷ 85 ∷ 152 ∷ 160 ∷ 240 ∷ 0 ∷ 0 ∷ 0 ∷ 0 ∷ 1 ∷ []

abbrev pub memo_program_id : List ℕ
memo_program_id =
    5 ∷ 74 ∷ 83 ∷ 90 ∷ 153 ∷ 41 ∷ 33 ∷ 6 ∷ 77 ∷ 36 ∷ 232 ∷ 113 ∷ 96 ∷ 218 ∷ 56 ∷ 124 ∷ 124 ∷ 53
    ∷ 181 ∷ 221 ∷ 188 ∷ 146 ∷ 187 ∷ 129 ∷ 228 ∷ 31 ∷ 168 ∷ 64 ∷ 65 ∷ 5 ∷ 68 ∷ 141 ∷ []

abbrev pub pump_pool_discriminator : List ℕ
pump_pool_discriminator = 241 ∷ 154 ∷ 109 ∷ 4 ∷ 17 ∷ 177 ∷ 109 ∷ 188 ∷ []

abbrev pub meteora_lb_pair_discriminator : List ℕ
meteora_lb_pair_discriminator = 33 ∷ 11 ∷ 49 ∷ 98 ∷ 181 ∷ 101 ∷ 177 ∷ 13 ∷ []

abbrev pub meteora_bin_array_discriminator : List ℕ
meteora_bin_array_discriminator = 92 ∷ 142 ∷ 92 ∷ 220 ∷ 5 ∷ 148 ∷ 70 ∷ 181 ∷ []

abbrev pub pump_buy_exact_quote_in_discriminator : List ℕ
pump_buy_exact_quote_in_discriminator = 198 ∷ 46 ∷ 21 ∷ 82 ∷ 180 ∷ 217 ∷ 232 ∷ 112 ∷ []

abbrev pub pump_sell_discriminator : List ℕ
pump_sell_discriminator = 51 ∷ 230 ∷ 133 ∷ 164 ∷ 1 ∷ 127 ∷ 131 ∷ 173 ∷ []

abbrev pub meteora_swap2_discriminator : List ℕ
meteora_swap2_discriminator = 65 ∷ 75 ∷ 63 ∷ 76 ∷ 235 ∷ 91 ∷ 91 ∷ 136 ∷ []

abbrev pub user_volume_accumulator_discriminator : List ℕ
user_volume_accumulator_discriminator = 86 ∷ 255 ∷ 112 ∷ 14 ∷ 102 ∷ 53 ∷ 154 ∷ 250 ∷ []

abbrev pub max_meteora_bin_arrays : ℕ
max_meteora_bin_arrays = 8

abbrev pub max_best_direction_bin_arrays : ℕ
max_best_direction_bin_arrays = 4
