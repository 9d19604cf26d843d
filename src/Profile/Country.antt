-- ===== src/Profile/Country.antt =====
-- profile/country.go: the country that the name of a node tells.
-- The source scans bytes; here the code points are scanned. A byte before or behind an ASCII word is
-- a lower-case letter exactly if the code point there is, so the loops find the same words.
pub mod Words
use target_lib.Base.{
  List, [], ◌∷◌, ◌++◌, Option, none, some, ℕ, zero, suc, ◌+◌, ◌-◌, Text, text, Bool, true, false,
  not, ◌&&◌, ◌||◌, ltb, leb, nat_eq, is_empty, is_some, length, drop, if◌then◌else◌, has_prefix,
  trim_space, to_lower,
}

-- s[i], where there is such an element.
abbrev pub get_elem? : Text → ℕ → Option ℕ
get_elem? [] i = none
get_elem? (c ∷ s) zero = some c
get_elem? (c ∷ s) (suc i) = get_elem? s i

abbrev pub one_later : Option ℕ → Option ℕ
one_later none = none
one_later (some i) = some (suc i)

-- strings.Index.
unfoldable pub index : Text → Text → Option ℕ
index [] word = if has_prefix [] word then some 0 else none
index (c ∷ s) word =
    let rest = index s word in if has_prefix (c ∷ s) word then some 0 else one_later rest

-- A place outside the text, or one that holds no letter from a to z.
unfoldable pub is_boundary : Option ℕ → Bool
is_boundary none = true
is_boundary (some c) = ltb c b'a' || ltb b'z' c

unfoldable pub left_ok : Text → ℕ → Bool
left_ok text zero = true
left_ok text (suc before) = is_boundary (get_elem? text before)

unfoldable pub right_ok : Text → ℕ → Bool
right_ok text end = is_boundary (get_elem? text end)

-- The loop of containsWord, on fuel; none if the fuel runs out.
unfoldable pub word_from : ℕ → ℕ → Text → Text → Option Bool
word_from zero offset text word = none
word_from (suc fuel) offset text word = elim (ltb (length text) (offset + length word)) [
  | true ↦ some false
  | false ↦ elim (index (drop offset text) word) [
    | none ↦ some false
    | some i ↦ elim (left_ok text (offset + i) && right_ok text (offset + i + length word)) [
      | true ↦ some true
      | false ↦ word_from fuel (offset + i + 1) text word
    ]
  ]
]

-- Each round moves the offset on, at most to one place behind the text, where the last round ends.
unfoldable pub contains_word : Text → Text → Option Bool
contains_word text word = word_from (suc (suc (length text))) 0 text word

unfoldable pub has_non_ascii : Text → Bool
has_non_ascii [] = false
has_non_ascii (c ∷ s) = let rest = has_non_ascii s in if ltb 0x7f c then true else rest

abbrev pub found : Option Bool → Bool
found none = false
found (some b) = b

unfoldable pub contains_alias : Text → Text → Bool
contains_alias name alias =
    if is_empty alias
    then false
    else if is_some (index alias (b' ' ∷ [])) || has_non_ascii alias
    then is_some (index name alias)
    else found (contains_word name alias)

-- Two regional indicators side by side are a flag.
abbrev pub is_regional : ℕ → Bool
is_regional c = leb 0x1f1e6 c && leb c 0x1f1ff

unfoldable pub country_code_from_flag : Text → Text
country_code_from_flag [] = []
country_code_from_flag (first ∷ []) = []
country_code_from_flag (first ∷ second ∷ s) =
    let rest = country_code_from_flag (second ∷ s) in
    if is_regional first && is_regional second
    then (first - 0x1f1e6 + b'A') ∷ (second - 0x1f1e6 + b'A') ∷ []
    else rest

unfoldable pub any_alias : Text → List Text → Bool
any_alias text [] = false
any_alias text (alias ∷ more) =
    let rest = any_alias text more in if contains_alias text alias then true else rest

-- The loop over the map, whose entries Go visits in any order.
unfoldable pub code_from_aliases : List (Text × List Text) → Text → Text
code_from_aliases [] text = []
code_from_aliases ((code, aliases) ∷ more) text =
    let rest = code_from_aliases more text in if any_alias text aliases then code else rest

-- inferCountryCode, with the entries of countryAliases in the order in which they are visited.
unfoldable pub infer_country_code : List (Text × List Text) → Text → Text
infer_country_code visited name =
    let text = to_lower (trim_space name) in
    if is_empty text
    then []
    else if is_empty (country_code_from_flag text)
    then code_from_aliases visited text
    else country_code_from_flag text

abbrev pub country_aliases : List (Text × List Text)
unfolding text
country_aliases =
    (text "AR", text "argentina" ∷ text "argentine" ∷ text "阿根廷" ∷ [])
    ∷ (text "AU", text "australia" ∷ text "aussie" ∷ text "澳大利亚" ∷ text "澳洲" ∷ [])
    ∷ (text "BR", text "brazil" ∷ text "巴西" ∷ [])
    ∷ (text "CA", text "canada" ∷ text "加拿大" ∷ [])
    ∷ (text "CH", text "switzerland" ∷ text "swiss" ∷ text "瑞士" ∷ [])
    ∷ (text "CL", text "chile" ∷ text "智利" ∷ [])
    ∷ (text "CN", text "china" ∷ text "mainland" ∷ text "中国" ∷ text "大陆" ∷ [])
    ∷ (text "DE", text "germany" ∷ text "frankfurt" ∷ text "德国" ∷ text "法兰克福" ∷ [])
    ∷ (text "EG", text "egypt" ∷ text "埃及" ∷ [])
    ∷ (text "ES", text "spain" ∷ text "madrid" ∷ text "西班牙" ∷ text "马德里" ∷ [])
    ∷ (text "FI", text "finland" ∷ text "芬兰" ∷ [])
    ∷ (text "FR", text "france" ∷ text "paris" ∷ text "法国" ∷ text "巴黎" ∷ [])
    ∷ (
      text "GB",
      text "united kingdom"
          ∷ text "britain"
          ∷ text "england"
          ∷ text "london"
          ∷ text "uk"
          ∷ text "英国"
          ∷ text "伦敦"
          ∷ [],
    )
    ∷ (text "HK", text "hong kong" ∷ text "hongkong" ∷ text "hk" ∷ text "香港" ∷ [])
    ∷ (text "ID", text "indonesia" ∷ text "jakarta" ∷ text "印尼" ∷ text "雅加达" ∷ [])
    ∷ (text "IE", text "ireland" ∷ text "爱尔兰" ∷ [])
    ∷ (text "IL", text "israel" ∷ text "以色列" ∷ [])
    ∷ (text "IN", text "india" ∷ text "mumbai" ∷ text "印度" ∷ text "孟买" ∷ [])
    ∷ (text "IT", text "italy" ∷ text "milan" ∷ text "意大利" ∷ text "米兰" ∷ [])
    ∷ (
      text "JP",
      text "japan"
          ∷ text "tokyo"
          ∷ text "osaka"
          ∷ text "jp"
          ∷ text "日本"
          ∷ text "东京"
          ∷ text "大阪"
          ∷ [],
    )
    ∷ (
      text "KR",
      text "south korea" ∷ text "korea" ∷ text "seoul" ∷ text "kr" ∷ text "韩国" ∷ text "首尔" ∷ [],
    )
    ∷ (text "MO", text "macao" ∷ text "macau" ∷ text "澳门" ∷ [])
    ∷ (text "MX", text "mexico" ∷ text "墨西哥" ∷ [])
    ∷ (text "MY", text "malaysia" ∷ text "kuala lumpur" ∷ text "my" ∷ text "马来西亚" ∷ text "吉隆坡" ∷ [])
    ∷ (
      text "NL",
      text "netherlands" ∷ text "holland" ∷ text "amsterdam" ∷ text "荷兰" ∷ text "阿姆斯特丹" ∷ [],
    )
    ∷ (text "NO", text "norway" ∷ text "挪威" ∷ [])
    ∷ (text "NZ", text "new zealand" ∷ text "新西兰" ∷ [])
    ∷ (text "PH", text "philippines" ∷ text "manila" ∷ text "菲律宾" ∷ text "马尼拉" ∷ [])
    ∷ (text "PL", text "poland" ∷ text "warsaw" ∷ text "波兰" ∷ text "华沙" ∷ [])
    ∷ (text "RU", text "russia" ∷ text "moscow" ∷ text "俄罗斯" ∷ text "莫斯科" ∷ [])
    ∷ (text "SE", text "sweden" ∷ text "stockholm" ∷ text "瑞典" ∷ text "斯德哥尔摩" ∷ [])
    ∷ (text "SG", text "singapore" ∷ text "sg" ∷ text "新加坡" ∷ text "狮城" ∷ [])
    ∷ (text "TH", text "thailand" ∷ text "bangkok" ∷ text "泰国" ∷ text "曼谷" ∷ [])
    ∷ (text "TR", text "turkey" ∷ text "istanbul" ∷ text "土耳其" ∷ text "伊斯坦布尔" ∷ [])
    ∷ (text "TW", text "taiwan" ∷ text "taipei" ∷ text "tw" ∷ text "台湾" ∷ text "台北" ∷ [])
    ∷ (text "UA", text "ukraine" ∷ text "乌克兰" ∷ [])
    ∷ (
      text "US",
      text "united states"
          ∷ text "america"
          ∷ text "los angeles"
          ∷ text "san jose"
          ∷ text "new york"
          ∷ text "us"
          ∷ text "usa"
          ∷ text "美国"
          ∷ text "洛杉矶"
          ∷ text "圣何塞"
          ∷ text "纽约"
          ∷ [],
    )
    ∷ (text "VN", text "vietnam" ∷ text "hanoi" ∷ text "越南" ∷ text "河内" ∷ [])
    ∷ (text "ZA", text "south africa" ∷ text "南非" ∷ [])
    ∷ []
