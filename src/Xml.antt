-- ===== src/Xml.antt =====
-- tinyxml/bmshxml.cpp: `BmshXml`, the readings of an element that tinyxml has parsed. An element is
-- its tag, its text and its attributes; a null pointer is `none`, and a copy equals what it copies.
use cnode.Prelude.{Bool, Option, none, some, if◌then◌else◌, List, []}
use cnode.Prelude.Int.{ℤ}
use cnode.Prelude.Bytes.{Bytes, lookup}
use cnode.StrParse.{atoi}

pub record Element : Type 0 where
  pub tag : Bytes
  pub text : Option Bytes
  pub attributes : List (Bytes × Bytes)

abbrev null_or_empty : Bool → Option Bytes
null_or_empty not_null = if not_null then some [] else none

unfoldable pub text_strptr : Option Element → Bool → Option Bytes
text_strptr none not_null = null_or_empty not_null
text_strptr (some e) not_null = elim e.text [ none ↦ null_or_empty not_null | some t ↦ some t ]

unfoldable pub text_strdup : Option Element → Bool → Option Bytes
text_strdup none not_null = null_or_empty not_null
text_strdup (some e) not_null = elim e.text [ none ↦ null_or_empty not_null | some t ↦ some t ]

unfoldable pub text_string : Option Element → Bytes
text_string none = []
text_string (some e) = elim e.text [ none ↦ [] | some t ↦ t ]

unfoldable pub text_int : Option Element → ℤ → ℤ
unfolding atoi
text_int none def = def
text_int (some e) def = elim e.text [ none ↦ def | some t ↦ atoi t ]

unfoldable pub attr_strptr : Option Element → Bytes → Bool → Option Bytes
unfolding lookup
attr_strptr none attr not_null = null_or_empty not_null
attr_strptr (some e) attr not_null = elim (lookup attr e.attributes) [
  | none ↦ null_or_empty not_null
  | some t ↦ some t
]

unfoldable pub attr_strdup : Option Element → Bytes → Bool → Option Bytes
unfolding lookup
attr_strdup none attr not_null = null_or_empty not_null
attr_strdup (some e) attr not_null = elim (lookup attr e.attributes) [
  | none ↦ null_or_empty not_null
  | some t ↦ some t
]

unfoldable pub attr_int : Option Element → Bytes → ℤ → ℤ
unfolding lookup atoi
attr_int none attr def = def
attr_int (some e) attr def = elim (lookup attr e.attributes) [ none ↦ def | some t ↦ atoi t ]

unfoldable pub attr_string : Option Element → Bytes → Bytes
unfolding lookup
attr_string none attr = []
attr_string (some e) attr = elim (lookup attr e.attributes) [ none ↦ [] | some t ↦ t ]
