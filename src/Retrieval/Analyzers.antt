-- ===== src/Retrieval/Analyzers.antt =====
-- modules/zh-retrieval-lab/analyzers.py: three ways to turn a text into terms. A text is the list of
-- its characters, a term the text of some of them.
pub mod Whole
use Prim.Native.Char.{Char, code}
use Prim.Native.String.{[] as empty_text, ◌∷◌ as one_more, count}
use text.Mathlib.TextBridge.{of_list}
use mastery.Prelude.{
  take, drop, same, ℕ, zero, suc, ◌-◌, max, min, String, Bool, true, false, not, ◌||◌, Option, none,
  some, List, [], ◌∷◌, map, if◌then◌else◌, ◌==◌, length, keep,
}

-- DICTIONARY
abbrev pub dictionary : List String
dictionary =
    "中国石化" ∷ "中国石油" ∷ "工业和信息化部" ∷ "稀土" ∷ "出口" ∷ "管制" ∷ "宁德时代" ∷ "宝马集团" ∷ "供货" ∷ "协议" ∷ "比亚迪" ∷ "新工厂"
    ∷ "量产" ∷ "华为技术有限公司" ∷ "董事长" ∷ "美国商务部" ∷ "中芯国际" ∷ "实体清单" ∷ "长江存储" ∷ "武汉" ∷ "停产" ∷ "蔚来汽车"
    ∷ "合肥市政府" ∷ "投资" ∷ "国家发展和改革委员会" ∷ "关税" ∷ "隆基绿能" ∷ "通威股份" ∷ "光伏" ∷ "减产" ∷ "小米集团" ∷ "北京" ∷ "工厂"
    ∷ "中远海运" ∷ "马士基" ∷ "运价" ∷ "仲裁" ∷ "深圳" ∷ "港口" ∷ "货物" ∷ "中国稀土集团" ∷ "北方稀土" ∷ "资源" ∷ "新疆" ∷ "天然气"
    ∷ "产能" ∷ "研发中心" ∷ "价格" ∷ "上涨" ∷ "材料" ∷ "措施" ∷ "调整" ∷ "整合" ∷ "会议" ∷ "企业" ∷ "签署" ∷ "长期" ∷ "换届"
    ∷ "轮值" ∷ "列入" ∷ "部分" ∷ "产线" ∷ "检修" ∷ "获得" ∷ "新一轮" ∷ "发表" ∷ "评论" ∷ "协调" ∷ "二期" ∷ "落成" ∷ "航线"
    ∷ "争议" ∷ "进入" ∷ "扩大" ∷ "宣布" ∷ "新建" ∷ "开始" ∷ "郑州" ∷ "召集" ∷ "将" ∷ []

-- MAX_WORD
abbrev pub longest_of : List String → ℕ
longest_of [] = 0
longest_of (w ∷ ws) = max (count w) (longest_of ws)

-- The code points that `str.strip` takes away.
abbrev spaces : List ℕ
spaces =
    9 ∷ 10 ∷ 11 ∷ 12 ∷ 13 ∷ 28 ∷ 29 ∷ 30 ∷ 31 ∷ 32 ∷ 133 ∷ 160 ∷ 5760 ∷ 8192 ∷ 8193 ∷ 8194 ∷ 8195
    ∷ 8196 ∷ 8197 ∷ 8198 ∷ 8199 ∷ 8200 ∷ 8201 ∷ 8202 ∷ 8232 ∷ 8233 ∷ 8239 ∷ 8287 ∷ 12288 ∷ []

abbrev is_one_of : ℕ → List ℕ → Bool
is_one_of n [] = false
is_one_of n (m ∷ ms) = n == m || is_one_of n ms

-- `c.strip()`, as a test
abbrev pub is_visible : Char → Bool
is_visible c = not (is_one_of (code c) spaces)

-- `[c for c in text if c.strip()]`
abbrev pub chars_of : List Char → List Char
chars_of text = keep is_visible text

abbrev pub single : Char → String
single c = of_list (c ∷ [])

unfoldable pub unigram : List Char → List String
unigram text = map single (chars_of text)

abbrev pub pairs : List Char → List String
pairs [] = []
pairs (c ∷ []) = []
pairs (c ∷ d ∷ cs) = of_list (c ∷ d ∷ []) ∷ pairs (d ∷ cs)

unfoldable pub bigram : List Char → List String
bigram text = pairs (chars_of text)

-- `candidate in DICTIONARY`
unfoldable pub is_word : List String → String → Bool
unfolding same
is_word [] candidate = false
is_word (w ∷ ws) candidate = same w candidate || is_word ws candidate

module _ (words : List String) where
  -- The inner loop, `for size in range(.., 1, -1)`.
  unfoldable pub match_size : ℕ → List Char → Option ℕ
  unfolding is_word
  match_size zero cs = none
  match_size (suc zero) cs = none
  match_size (suc (suc n)) cs =
      let rest = match_size (suc n) cs in
      if is_word words (of_list (take (suc (suc n)) cs)) then some (suc (suc n)) else rest

  abbrev pub matched : List Char → Option ℕ
  matched cs = match_size (min (longest_of words) (length cs)) cs

  -- What one round of the outer loop takes: a word, or one character.
  abbrev pub round_size : Option ℕ → ℕ
  round_size none = 1
  round_size (some size) = size

  -- The outer loop, on fuel.
  unfoldable pub match_from : ℕ → List Char → List String
  unfolding match_size
  match_from zero cs = []
  match_from (suc fuel) [] = []
  match_from (suc fuel) (c ∷ cs) =
      let size = round_size (matched (c ∷ cs)) in
      of_list (take size (c ∷ cs)) ∷ match_from fuel (drop size (c ∷ cs))

-- Each round takes a character, so there are no more rounds than characters.
unfoldable pub dictmatch : List Char → List String
unfolding match_from
dictmatch text = match_from dictionary (length (chars_of text)) (chars_of text)
