-- ===== src/Py/Xml.antt =====
-- `xml.etree.ElementTree`: elements and the searches that the program makes. Parsing and printing
-- are parameters.
use sql_observability.Base.{
  String, Option, none, some, List, [], ◌∷◌, ◌++◌, ◌==◌, keep, if◌then◌else◌,
}
use sql_observability.Base.Int.{ℤ}
use sql_observability.Py.Errors.{Result, ok, err, key_error}
use sql_observability.Py.Datetime.{Datetime}

mutual
  -- tag, attributes, text and children
  pub data Element : Type 0 where
    element : String → List (String × String) → Option String → Elements → Element

  pub data Elements : Type 0 where
    nothing : Elements
    child : Element → Elements → Elements

-- What the program takes from the library: `ET.fromstring`, `ET.tostring`,
-- `datetime.fromisoformat`, `int` of a text and the text of an integer.
pub record Parsers : Type 0 where
  pub fromstring : String → Result Element
  pub tostring : Element → String
  pub fromisoformat : String → Result Datetime
  pub to_int : String → Result ℤ
  pub format_int : ℤ → String

abbrev pub tag : Element → String
tag (element t attrib text els) = t

abbrev pub in_order : Elements → List Element
in_order nothing = []
in_order (child e es) = e ∷ in_order es

-- `list(el)`
abbrev pub children : Element → List Element
children (element t attrib text els) = in_order els

-- the value of a key, the last one where a dict comprehension gives several
abbrev pub look_up : String → List (String × String) → Option String
look_up k [] = none
look_up k ((j, v) ∷ fields) = if j == k then some v else look_up k fields

-- `el.attrib.get(k)`
abbrev pub get_attrib : Element → String → Option String
get_attrib (element t attrib text els) k = look_up k attrib

-- `el.attrib[k]`
abbrev pub attrib_item : Element → String → Result String
attrib_item el k = elim (get_attrib el k) [ none ↦ err (key_error k) | some v ↦ ok v ]

abbrev pub tagged : String → List Element → List Element
tagged name els = keep (λ e. tag e == name) els

abbrev pub all_children : List Element → List Element
all_children [] = []
all_children (e ∷ els) = children e ++ all_children els

-- `el.findall("a/b/c")`: the children of the first step, then their children
abbrev pub steps : List String → List Element → List Element
steps [] els = els
steps (name ∷ path) els = steps path (tagged name (all_children els))

abbrev pub findall : List String → Element → List Element
findall path el = steps path (el ∷ [])

-- `el.find(path)`
abbrev pub find_first : List String → Element → Option Element
find_first path el = elim (findall path el) [ [] ↦ none | e ∷ rest ↦ some e ]

abbrev pub text_of : Element → String
text_of (element t attrib none els) = ""
text_of (element t attrib (some s) els) = s

-- `el.findtext(name)`
abbrev pub findtext : String → Element → Option String
findtext name el = elim (find_first (name ∷ []) el) [ none ↦ none | some e ↦ some (text_of e) ]

unfoldable mutual
  -- the elements below an element, in document order
  pub below : Element → List Element
  below (element t attrib text els) = below_all els

  pub below_all : Elements → List Element
  below_all nothing = []
  below_all (child e es) = e ∷ (below e ++ below_all es)
