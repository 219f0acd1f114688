-- ===== src/Svcb/Chars.antt =====
-- The character classes of svcb.py.
use hexdns.Common.{ℕ, Bool, true, false, ◌&&◌, ◌||◌, leb, ◌==◌, if◌then◌else◌, List, [], ◌∷◌}

-- `char in (…)`
unfoldable pub elem : ℕ → List ℕ → Bool
elem c [] = false
elem c (x ∷ xs) = c == x || elem c xs

-- `lo <= char <= hi`
abbrev pub between : ℕ → ℕ → ℕ → Bool
between lo c hi = leb lo c && leb c hi

abbrev blocked_ports : List ℕ
blocked_ports =
    1 ∷ 7 ∷ 9 ∷ 11 ∷ 13 ∷ 15 ∷ 17 ∷ 19 ∷ 20 ∷ 21 ∷ 22 ∷ 23 ∷ 25 ∷ 37 ∷ 42 ∷ 43 ∷ 53 ∷ 69 ∷ 77 ∷ 79
    ∷ 87 ∷ 95 ∷ 101 ∷ 102 ∷ 103 ∷ 104 ∷ 109 ∷ 110 ∷ 111 ∷ 113 ∷ 115 ∷ 117 ∷ 119 ∷ 123 ∷ 135 ∷ 137
    ∷ 139 ∷ 143 ∷ 161 ∷ 179 ∷ 389 ∷ 427 ∷ 465 ∷ 512 ∷ 513 ∷ 514 ∷ 515 ∷ 526 ∷ 530 ∷ 531 ∷ 532 ∷ 540
    ∷ 548 ∷ 554 ∷ 556 ∷ 563 ∷ 601 ∷ 636 ∷ 993 ∷ 995 ∷ 1719 ∷ 1720 ∷ 1723 ∷ 2049 ∷ 3659 ∷ 4045 ∷ 5060
    ∷ 5061 ∷ 6000 ∷ 6566 ∷ 6665 ∷ 6666 ∷ 6667 ∷ 6668 ∷ 6669 ∷ 6697 ∷ 10080 ∷ []

unfoldable pub svcb_fetch_port_blocking : ℕ → Bool
unfolding elem
svcb_fetch_port_blocking port = if elem port blocked_ports then true else false

unfoldable pub is_item_allowed_char : ℕ → Bool
is_item_allowed_char char =
    if between 0x00 char 0x2b || between 0x2d char 0x5b || between 0x5d char 0xff
    then true
    else false

unfoldable pub is_non_special_char : ℕ → Bool
is_non_special_char char =
    if char == 0x21
      || between 0x23 char 0x27
      || between 0x2a char 0x3a
      || between 0x3c char 0x5b
      || between 0x5d char 0x7e
    then true
    else false

unfoldable pub is_non_digit_char : ℕ → Bool
is_non_digit_char char = if between 0x21 char 0x2f || between 0x3a char 0x7e then true else false

unfoldable pub is_digit_char : ℕ → Bool
is_digit_char char = if between 0x30 char 0x39 then true else false

unfoldable pub is_wsp : ℕ → Bool
is_wsp char = if char == 32 || char == 9 then true else false
