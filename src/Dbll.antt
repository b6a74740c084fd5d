-- ===== src/Dbll.antt =====
-- dbll.c, `dbll`: the links of the records of a database whose targets match a pattern, filtered by
-- type. The database that the static access functions of EPICS base walk through is an argument, and
-- so is the parameter `glob` for `epicsStrGlobMatch`. The model is of EPICS 3.15 and later, where
-- aliases can be told and there are PN_LINKs.
pub mod Pattern
pub mod Types
pub mod Shown
mod Tests
use iocsh_utilities.Base.{
  ℕ, ◌==◌, if◌then◌else◌, Bool, true, false, not, ◌&&◌, ◌||◌, Option, none, some, List, [], ◌∷◌,
  ◌++◌, Text, codes, text_eq, has_byte,
}

pub data LinkType : Type 0 where
  constant pn_link pv_link db_link ca_link other_link : LinkType

pub data FieldType : Type 0 where
  inlink outlink fwdlink other_field : FieldType

-- What `dbll` reads of a link field: its name, `pvname`, the types, the option PP and its text.
pub record Link : Type 0 where
  pub field : Text
  pub target : Option Text
  pub link_type : LinkType
  pub field_type : FieldType
  pub opt_pp : Bool
  pub text : Text

pub record Entry : Type 0 where
  pub name : Text
  pub is_alias : Bool
  pub links : List Link

-- `match`, whether `matchfield` is set, and `alt_match`.
pub record Query : Type 0 where
  pub pattern : Text
  pub has_field : Bool
  pub alt : Option Text

abbrev pub dot : ℕ
dot = b'.'

-- `strchr(match, '.')`: the text before the first dot and the one from it on.
unfoldable pub split_field : Text → Text × Text
split_field [] = ([], [])
split_field (c ∷ s) =
    let (front, field) = split_field s in if c == dot then ([], c ∷ s) else (c ∷ front, field)

unfoldable pub query_with : Text → Text × Text → Query
query_with match (front, []) = record {
  pattern = match;
  has_field = false;
  alt = some (match ++ codes ".*");
}
query_with match (front, c ∷ field) = record {
  pattern = match;
  has_field = true;
  alt =
      if text_eq (c ∷ field) (codes ".VAL") || text_eq (c ∷ field) (codes ".*")
      then some front
      else none;
}

-- The first block of `dbll`. `none`: `match` is NULL.
unfoldable pub read_query : Option Text → Option Query
unfolding split_field query_with
read_query none = none
read_query (some []) = none
read_query (some (c ∷ s)) =
    if text_eq (c ∷ s) (codes "*") then none else some (query_with (c ∷ s) (split_field (c ∷ s)))

-- `typemask`.
pub record Mask : Type 0 where
  pub imask : Bool
  pub omask : Bool
  pub fmask : Bool
  pub pmask : Bool
  pub cmask : Bool
  pub dmask : Bool

abbrev pub no_mask : Mask
no_mask = record {
  imask = false;
  omask = false;
  fmask = false;
  pmask = false;
  cmask = false;
  dmask = false;
}

-- `switch (*types++)`.
unfoldable pub add_type : ℕ → Mask → Mask
add_type c m =
    if c == b'o' || c == b'O'
    then record m { omask = true }
    else if c == b'i' || c == b'I'
    then record m { imask = true }
    else if c == b'f' || c == b'F'
    then record m { fmask = true }
    else if c == b'p' || c == b'P'
    then record m { pmask = true }
    else if c == b'c' || c == b'C'
    then record m { cmask = true }
    else if c == b'd' || c == b'D'
    then record m { dmask = true }
    else m

unfoldable pub add_types : Text → Mask → Mask
unfolding add_type
add_types [] m = m
add_types (c ∷ types) m = add_types types (add_type c m)

unfoldable pub default_directions : Mask → Mask
default_directions m =
    if m.omask || m.imask || m.fmask
    then m
    else record m { omask = true; imask = true; fmask = true }

unfoldable pub default_kinds : Mask → Mask
default_kinds m = if m.cmask || m.dmask then m else record m { cmask = true; dmask = true }

-- The second block of `dbll`.
unfoldable pub read_types : Option Text → Mask
unfolding add_types default_directions default_kinds
read_types (some (c ∷ types)) = default_kinds (default_directions (add_types (c ∷ types) no_mask))
read_types _ = record {
  imask = true;
  omask = true;
  fmask = true;
  pmask = false;
  cmask = true;
  dmask = true;
}

-- The first `switch`: whether the link type is shown.
unfoldable pub kind_shown : Mask → LinkType → Bool
kind_shown m pn_link = m.dmask
kind_shown m pv_link = m.dmask
kind_shown m db_link = m.dmask
kind_shown m ca_link = m.cmask
kind_shown m _ = false

abbrev pub is_pn_link : LinkType → Bool
is_pn_link pn_link = true
is_pn_link _ = false

-- The second `switch`: the symbol, if the field type is shown.
unfoldable pub field_symbol : Mask → Link → FieldType → Option Text
field_symbol m l inlink =
    if not m.imask
    then none
    else if l.opt_pp || is_pn_link l.link_type
    then some (codes "<=p")
    else if m.pmask
    then none
    else some (codes "<==")
field_symbol m l outlink =
    if not m.omask
    then none
    else if l.opt_pp
    then some (codes "p=>")
    else if m.pmask
    then none
    else some (codes "==>")
field_symbol m l fwdlink = if not m.fmask then none else some (codes "p->")
field_symbol m l other_field = none

module _ (glob : Text → Text → Bool) where
  -- The condition before the `printf`.
  unfoldable pub accepts_alt : Text → Option Text → Bool
  accepts_alt target none = false
  accepts_alt target (some alt) = glob target alt

  unfoldable pub accepts : Option Query → Text → Bool
  unfolding accepts_alt
  accepts none target = true
  accepts (some q) target =
      if has_byte dot target
      then (if q.has_field then glob target q.pattern else accepts_alt target q.alt)
      else (if q.has_field then accepts_alt target q.alt else glob target q.pattern)

  abbrev pub line : Text → Link → Text → Text
  line name l symbol = name ++ (b'.' ∷ (l.field ++ (b' ' ∷ (symbol ++ (b' ' ∷ l.text)))))

  abbrev pub print_line : Bool → Text → Link → Option Text → List Text → List Text
  print_line true name l (some symbol) rest = line name l symbol ∷ rest
  print_line _ name l _ rest = rest

  -- One round of the innermost loop, before the lines of the other rounds.
  unfoldable pub print_link :
      Option Query → Mask → Text → Link → Option Text → List Text → List Text
  unfolding kind_shown field_symbol accepts
  print_link q m name l none rest = rest
  print_link q m name l (some target) rest =
      if kind_shown m l.link_type
      then print_line (accepts q target) name l (field_symbol m l l.field_type) rest
      else rest

  unfoldable pub print_links : Option Query → Mask → Text → List Link → List Text → List Text
  unfolding print_link
  print_links q m name [] rest = rest
  print_links q m name (l ∷ links) rest =
      print_link q m name l l.target (print_links q m name links rest)

  unfoldable pub print_entries : Option Query → Mask → List Entry → List Text
  unfolding print_links
  print_entries q m [] = []
  print_entries q m (e ∷ entries) =
      let rest = print_entries q m entries in
      if e.is_alias then rest else print_links q m e.name e.links rest

  -- `dbll`: the lines that it prints. The records of all record types come in one list.
  unfoldable pub dbll : Option Text → Option Text → List Entry → List Text
  unfolding read_query read_types print_entries
  dbll match types entries = print_entries (read_query match) (read_types types) entries
