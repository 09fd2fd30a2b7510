-- ===== src/Keyboard/Classic/Tables.antt =====
-- The scancode tables of kernel/keyboard/classic.c: make code and character, up to the entry 0x00.
use rorth_ox.Prelude.{ℕ, List, [], ◌∷◌}

unfoldable pub regular_scancodes : List (ℕ × ℕ)
regular_scancodes =
    (0x01, 27)
    ∷ (0x02, 49)
    ∷ (0x03, 50)
    ∷ (0x04, 51)
    ∷ (0x05, 52)
    ∷ (0x06, 53)
    ∷ (0x07, 54)
    ∷ (0x08, 55)
    ∷ (0x09, 56)
    ∷ (0x0a, 57)
    ∷ (0x0b, 48)
    ∷ (0x0c, 45)
    ∷ (0x0d, 61)
    ∷ (0x0e, 8)
    ∷ (0x0f, 9)
    ∷ (0x10, 113)
    ∷ (0x11, 119)
    ∷ (0x12, 101)
    ∷ (0x13, 114)
    ∷ (0x14, 116)
    ∷ (0x15, 121)
    ∷ (0x16, 117)
    ∷ (0x17, 105)
    ∷ (0x18, 111)
    ∷ (0x19, 112)
    ∷ (0x1a, 91)
    ∷ (0x1b, 93)
    ∷ (0x1c, 13)
    ∷ (0x1e, 97)
    ∷ (0x1f, 115)
    ∷ (0x20, 100)
    ∷ (0x21, 102)
    ∷ (0x22, 103)
    ∷ (0x23, 104)
    ∷ (0x24, 106)
    ∷ (0x25, 107)
    ∷ (0x26, 108)
    ∷ (0x27, 59)
    ∷ (0x28, 39)
    ∷ (0x29, 96)
    ∷ (0x2b, 92)
    ∷ (0x2c, 122)
    ∷ (0x2d, 120)
    ∷ (0x2e, 99)
    ∷ (0x2f, 118)
    ∷ (0x30, 98)
    ∷ (0x31, 110)
    ∷ (0x32, 109)
    ∷ (0x33, 44)
    ∷ (0x34, 46)
    ∷ (0x35, 47)
    ∷ (0x37, 42)
    ∷ (0x39, 32)
    ∷ (0x47, 55)
    ∷ (0x48, 56)
    ∷ (0x49, 57)
    ∷ (0x4a, 45)
    ∷ (0x4b, 52)
    ∷ (0x4c, 53)
    ∷ (0x4d, 54)
    ∷ (0x4e, 43)
    ∷ (0x4f, 49)
    ∷ (0x50, 50)
    ∷ (0x51, 51)
    ∷ (0x52, 48)
    ∷ (0x53, 46)
    ∷ (0x00, 0)
    ∷ []

unfoldable pub uppercase_scancodes : List (ℕ × ℕ)
uppercase_scancodes =
    (0x01, 27)
    ∷ (0x02, 49)
    ∷ (0x03, 50)
    ∷ (0x04, 51)
    ∷ (0x05, 52)
    ∷ (0x06, 53)
    ∷ (0x07, 54)
    ∷ (0x08, 55)
    ∷ (0x09, 56)
    ∷ (0x0a, 57)
    ∷ (0x0b, 48)
    ∷ (0x0c, 45)
    ∷ (0x0d, 61)
    ∷ (0x0e, 8)
    ∷ (0x0f, 9)
    ∷ (0x10, 81)
    ∷ (0x11, 87)
    ∷ (0x12, 69)
    ∷ (0x13, 82)
    ∷ (0x14, 84)
    ∷ (0x15, 89)
    ∷ (0x16, 85)
    ∷ (0x17, 73)
    ∷ (0x18, 79)
    ∷ (0x19, 80)
    ∷ (0x1a, 91)
    ∷ (0x1b, 93)
    ∷ (0x1c, 13)
    ∷ (0x1e, 65)
    ∷ (0x1f, 83)
    ∷ (0x20, 68)
    ∷ (0x21, 70)
    ∷ (0x22, 71)
    ∷ (0x23, 72)
    ∷ (0x24, 74)
    ∷ (0x25, 75)
    ∷ (0x26, 76)
    ∷ (0x27, 59)
    ∷ (0x28, 39)
    ∷ (0x29, 96)
    ∷ (0x2b, 92)
    ∷ (0x2c, 90)
    ∷ (0x2d, 88)
    ∷ (0x2e, 67)
    ∷ (0x2f, 86)
    ∷ (0x30, 66)
    ∷ (0x31, 78)
    ∷ (0x32, 77)
    ∷ (0x33, 44)
    ∷ (0x34, 46)
    ∷ (0x35, 47)
    ∷ (0x37, 42)
    ∷ (0x39, 32)
    ∷ (0x47, 55)
    ∷ (0x48, 56)
    ∷ (0x49, 57)
    ∷ (0x4a, 45)
    ∷ (0x4b, 52)
    ∷ (0x4c, 53)
    ∷ (0x4d, 54)
    ∷ (0x4e, 43)
    ∷ (0x4f, 49)
    ∷ (0x50, 50)
    ∷ (0x51, 51)
    ∷ (0x52, 48)
    ∷ (0x53, 46)
    ∷ (0x00, 0)
    ∷ []

unfoldable pub shift_modified_scancodes : List (ℕ × ℕ)
shift_modified_scancodes =
    (0x01, 27)
    ∷ (0x02, 33)
    ∷ (0x03, 64)
    ∷ (0x04, 35)
    ∷ (0x05, 36)
    ∷ (0x06, 37)
    ∷ (0x07, 94)
    ∷ (0x08, 38)
    ∷ (0x09, 42)
    ∷ (0x0a, 40)
    ∷ (0x0b, 41)
    ∷ (0x0c, 95)
    ∷ (0x0d, 43)
    ∷ (0x0e, 8)
    ∷ (0x0f, 9)
    ∷ (0x10, 81)
    ∷ (0x11, 87)
    ∷ (0x12, 69)
    ∷ (0x13, 82)
    ∷ (0x14, 84)
    ∷ (0x15, 89)
    ∷ (0x16, 85)
    ∷ (0x17, 73)
    ∷ (0x18, 79)
    ∷ (0x19, 80)
    ∷ (0x1a, 123)
    ∷ (0x1b, 125)
    ∷ (0x1c, 13)
    ∷ (0x1e, 65)
    ∷ (0x1f, 83)
    ∷ (0x20, 68)
    ∷ (0x21, 70)
    ∷ (0x22, 71)
    ∷ (0x23, 72)
    ∷ (0x24, 74)
    ∷ (0x25, 75)
    ∷ (0x26, 76)
    ∷ (0x27, 58)
    ∷ (0x28, 34)
    ∷ (0x29, 126)
    ∷ (0x2b, 124)
    ∷ (0x2c, 90)
    ∷ (0x2d, 88)
    ∷ (0x2e, 67)
    ∷ (0x2f, 86)
    ∷ (0x30, 66)
    ∷ (0x31, 78)
    ∷ (0x32, 77)
    ∷ (0x33, 60)
    ∷ (0x34, 62)
    ∷ (0x35, 63)
    ∷ (0x37, 42)
    ∷ (0x39, 32)
    ∷ (0x47, 55)
    ∷ (0x48, 56)
    ∷ (0x49, 57)
    ∷ (0x4a, 45)
    ∷ (0x4b, 52)
    ∷ (0x4c, 53)
    ∷ (0x4d, 54)
    ∷ (0x4e, 43)
    ∷ (0x4f, 49)
    ∷ (0x50, 50)
    ∷ (0x51, 51)
    ∷ (0x52, 48)
    ∷ (0x53, 46)
    ∷ (0x00, 0)
    ∷ []

-- RORTHOX_KEY_*, as config.mk sets them.
abbrev pub key_up : ℕ
key_up = 0x100

abbrev pub key_down : ℕ
key_down = 0x101

abbrev pub key_left : ℕ
key_left = 0x102

abbrev pub key_right : ℕ
key_right = 0x103

abbrev pub key_home : ℕ
key_home = 0x104

abbrev pub key_end : ℕ
key_end = 0x105

abbrev pub key_insert : ℕ
key_insert = 0x106

abbrev pub key_delete : ℕ
key_delete = 0x107

abbrev pub key_page_up : ℕ
key_page_up = 0x108

abbrev pub key_page_down : ℕ
key_page_down = 0x109

-- Keys that exist only behind the prefix byte 0xE0.
unfoldable pub extended_scancodes : List (ℕ × ℕ)
extended_scancodes =
    (0x1c, 0x0d)
    ∷ (0x35, 47)
    ∷ (0x48, key_up)
    ∷ (0x50, key_down)
    ∷ (0x4b, key_left)
    ∷ (0x4d, key_right)
    ∷ (0x47, key_home)
    ∷ (0x4f, key_end)
    ∷ (0x52, key_insert)
    ∷ (0x53, key_delete)
    ∷ (0x49, key_page_up)
    ∷ (0x51, key_page_down)
    ∷ (0x00, 0)
    ∷ []
