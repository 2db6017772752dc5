-- ===== src/Printk/Font.antt =====
-- `font_ascii` of kernel/font.h: the glyphs of the 256 characters. A glyph is one number, whose 16
-- bytes, the highest first, are the bytes of the source's row.
pub mod Glyphs
use knos.Base.{ℕ, ◌-◌, ◌/◌, ◌%◌, ◌^◌, Option, none, some, List, [], ◌∷◌, ◌++◌, get_elem?}

abbrev pub glyphs_0 : List ℕ
glyphs_0 =
    0 ∷ 0 ∷ 0 ∷ 0 ∷ 0 ∷ 0 ∷ 0 ∷ 0 ∷ 0 ∷ 0 ∷ 0 ∷ 0 ∷ 0 ∷ 0 ∷ 0 ∷ 0 ∷ 0 ∷ 0 ∷ 0 ∷ 0 ∷ 0 ∷ 0 ∷ 0 ∷ 0
    ∷ 0 ∷ 0 ∷ 0 ∷ 0 ∷ 0 ∷ 0 ∷ 0 ∷ 0 ∷ 0 ∷ 0x00101010101010101010000010100000
    ∷ 0x28282800000000000000000000000000 ∷ 0x00444444fe4444444444fe4444440000
    ∷ 0x103a56929290503814129292d4b81010 ∷ 0x6292949468081010202c5252928c0000
    ∷ 0x0070888888906047a2928a8446390000 ∷ 0x04081000000000000000000000000000
    ∷ 0x02040808101010101010100808040200 ∷ 0x80402020101010101010102020408000
    ∷ 0x00000000001092543854921000000000 ∷ 0x0000000000101010fe10101000000000
    ∷ 0x00000000000000000000001818080810 ∷ 0x0000000000000000fe00000000000000
    ∷ 0x00000000000000000000000018180000 ∷ 0x02020404080808101020204040408080
    ∷ 0x00182424424242424242422424180000 ∷ 0x000818280808080808080808083e0000
    ∷ 0x001824424202040810202040407e0000 ∷ 0x00182442020204180402024224180000
    ∷ 0x000c0c0c1414142424447e04041e0000 ∷ 0x007c4040405864020202024224180000
    ∷ 0x00182442405864424242424224180000 ∷ 0x007e4242040408080810101010380000
    ∷ 0x00182442424224182442424224180000 ∷ 0x0018244242424242261a024224180000
    ∷ 0x00000000001818000000000018180000 ∷ 0x00000000001818000000001818080810
    ∷ 0x00020408102040808040201008040200 ∷ 0x000000000000fe0000fe000000000000
    ∷ 0x00804020100804020204081020408000 ∷ 0x00384482828204081010000018180000 ∷ []

abbrev pub glyphs_64 : List ℕ
glyphs_64 =
    0x003844829aaaaaaaaaaa9c8046380000 ∷ 0x0018181818242424247e424242e70000
    ∷ 0x00f04844444448784442424244f80000 ∷ 0x003a4642828080808080824244380000
    ∷ 0x00f84444424242424242424444f80000 ∷ 0x00fe42424040447c4440404242fe0000
    ∷ 0x00fe42424040447c4444404040f00000 ∷ 0x003a46428280809e8282824246380000
    ∷ 0x00e742424242427e4242424242e70000 ∷ 0x007c10101010101010101010107c0000
    ∷ 0x001f0404040404040404040484483000 ∷ 0x00e74244485050605050484442e70000
    ∷ 0x00f04040404040404040404242fe0000 ∷ 0x00c3426666665a5a5a42424242e70000
    ∷ 0x00c74262625252524a4a4a4646e20000 ∷ 0x00384482828282828282828244380000
    ∷ 0x00f84442424244784040404040f00000 ∷ 0x00384482828282828282928a443a0000
    ∷ 0x00fc424242427c444242424242e70000 ∷ 0x003a46828280403804028282c4b80000
    ∷ 0x00fe92921010101010101010107c0000 ∷ 0x00e742424242424242424242243c0000
    ∷ 0x00e74242424224242424181818180000 ∷ 0x00e74242425a5a5a5a24242424240000
    ∷ 0x00e74242242424182424244242e70000 ∷ 0x00ee44444428282810101010107c0000
    ∷ 0x00fe8484080810102020404282fe0000 ∷ 0x003e2020202020202020202020203e00
    ∷ 0x80804040202020101008080404040202 ∷ 0x007c0404040404040404040404047c00
    ∷ 0x00102844820000000000000000000000 ∷ 0x0000000000000000000000000000fe00
    ∷ 0x10080400000000000000000000000000 ∷ 0x00000000007008043c4484848c760000
    ∷ 0xc0404040405864424242424264580000 ∷ 0x0000000000304c848480808244380000
    ∷ 0x0c04040404344c84848484844c360000 ∷ 0x000000000038448282fc8082423c0000
    ∷ 0x0e101010107c101010101010107c0000 ∷ 0x0000000000364c848484844c34040438
    ∷ 0xc0404040405864424242424242e30000 ∷ 0x00101000003010101010101010380000
    ∷ 0x00040400000c04040404040404080830 ∷ 0xc0404040404e44485060504844e60000
    ∷ 0x30101010101010101010101010380000 ∷ 0x0000000000f649494949494949db0000
    ∷ 0x0000000000d864424242424242e30000 ∷ 0x00000000003844828282828244380000
    ∷ 0x00000000d864424242424264584040e0 ∷ 0x00000000344c84848484844c3404040e
    ∷ 0x0000000000dc62424040404040e00000 ∷ 0x00000000007a8682c0380682c2bc0000
    ∷ 0x00001010107c101010101010100e0000 ∷ 0x0000000000c6424242424242463b0000
    ∷ 0x0000000000e742424224242418180000 ∷ 0x0000000000e742425a5a5a2424240000
    ∷ 0x0000000000c644282810282844c60000 ∷ 0x0000000000e742422424241818101060
    ∷ 0x0000000000fe82840810204282fe0000 ∷ 0x00060810101010601010101008060000
    ∷ 0x10101010101010101010101010101010 ∷ 0x00601008080808060808080810600000
    ∷ 0x00728c00000000000000000000000000 ∷ 0 ∷ []

abbrev pub glyphs_128 : List ℕ
glyphs_128 =
    0 ∷ 0 ∷ 0 ∷ 0 ∷ 0 ∷ 0 ∷ 0 ∷ 0 ∷ 0 ∷ 0 ∷ 0 ∷ 0 ∷ 0 ∷ 0 ∷ 0 ∷ 0 ∷ 0 ∷ 0 ∷ 0 ∷ 0 ∷ 0 ∷ 0 ∷ 0 ∷ 0
    ∷ 0 ∷ 0 ∷ 0 ∷ 0 ∷ 0 ∷ 0 ∷ 0 ∷ 0 ∷ 0 ∷ 0 ∷ 0 ∷ 0 ∷ 0 ∷ 0 ∷ 0 ∷ 0 ∷ 0 ∷ 0 ∷ 0 ∷ 0 ∷ 0 ∷ 0 ∷ 0 ∷ 0
    ∷ 0 ∷ 0 ∷ 0 ∷ 0 ∷ 0 ∷ 0 ∷ 0 ∷ 0 ∷ 0 ∷ 0 ∷ 0 ∷ 0 ∷ 0 ∷ 0 ∷ 0 ∷ 0 ∷ []

abbrev pub glyphs_192 : List ℕ
glyphs_192 =
    0 ∷ 0 ∷ 0 ∷ 0 ∷ 0 ∷ 0 ∷ 0 ∷ 0 ∷ 0 ∷ 0 ∷ 0 ∷ 0 ∷ 0 ∷ 0 ∷ 0 ∷ 0 ∷ 0 ∷ 0 ∷ 0 ∷ 0 ∷ 0 ∷ 0 ∷ 0 ∷ 0
    ∷ 0 ∷ 0 ∷ 0 ∷ 0 ∷ 0 ∷ 0 ∷ 0 ∷ 0 ∷ 0 ∷ 0 ∷ 0 ∷ 0 ∷ 0 ∷ 0 ∷ 0 ∷ 0 ∷ 0 ∷ 0 ∷ 0 ∷ 0 ∷ 0 ∷ 0 ∷ 0 ∷ 0
    ∷ 0 ∷ 0 ∷ 0 ∷ 0 ∷ 0 ∷ 0 ∷ 0 ∷ 0 ∷ 0 ∷ 0 ∷ 0 ∷ 0 ∷ 0 ∷ 0 ∷ 0 ∷ 0 ∷ []

unfoldable pub font_ascii : List ℕ
font_ascii = glyphs_0 ++ (glyphs_64 ++ (glyphs_128 ++ glyphs_192))

abbrev pub row_of : ℕ → Option ℕ → ℕ
row_of i none = 0
row_of i (some g) = g / 256 ^ (15 - i) % 256

-- `font_ascii[c][i]`, for a uint8_t `c` and a row `i` below 16.
unfoldable pub font_row : ℕ → ℕ → ℕ
font_row c i = row_of i (get_elem? font_ascii c)
