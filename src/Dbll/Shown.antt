-- ===== src/Dbll/Shown.antt =====
-- The lines that `dbll` of dbll.c prints for a type filter.
use iocsh_utilities.Base.{
  if◌then◌else◌, Bool, true, false, not, ◌&&◌, ◌||◌, Option, none, some, List, [], ◌∷◌, ◌++◌, Text,
  codes,
}
use iocsh_utilities.Dbll.{
  LinkType, constant, pn_link, pv_link, db_link, ca_link, other_link, FieldType, inlink, outlink,
  fwdlink, other_field, Link, Entry, Query, Mask, read_types, accepts,
}
use iocsh_utilities.Dbll.Types.{named, no_direction, no_kind}

-- Whether a filter lets a direction through, and a kind: each that it names, and all if it names none.
abbrev pub direction_named : FieldType → Text → Bool
direction_named inlink types = named b'i' b'I' types || no_direction types
direction_named outlink types = named b'o' b'O' types || no_direction types
direction_named fwdlink types = named b'f' b'F' types || no_direction types
direction_named other_field types = false

abbrev pub kind_named : LinkType → Text → Bool
kind_named ca_link types = named b'c' b'C' types || no_kind types
kind_named pn_link types = named b'd' b'D' types || no_kind types
kind_named pv_link types = named b'd' b'D' types || no_kind types
kind_named db_link types = named b'd' b'D' types || no_kind types
kind_named constant types = false
kind_named other_link types = false

-- Whether the link makes a record process: each forward link, an input link of the type PN_LINK, and
-- an input or output link with the option PP.
abbrev pub processes : FieldType → LinkType → Bool → Bool
processes fwdlink t pp = true
processes inlink pn_link pp = true
processes inlink _ pp = pp
processes outlink t pp = pp
processes other_field t pp = false

abbrev pub symbol_of : FieldType → Bool → Text
symbol_of inlink true = codes "<=p"
symbol_of inlink false = codes "<=="
symbol_of outlink true = codes "p=>"
symbol_of outlink false = codes "==>"
symbol_of fwdlink p = codes "p->"
symbol_of other_field p = []

abbrev pub shown : Text → Link → Bool
shown types l =
    kind_named l.link_type types
    && (direction_named l.field_type types
        && (processes l.field_type l.link_type l.opt_pp || not (named b'p' b'P' types)))

module _ (types : Text) where
  abbrev mask : Mask
  mask = read_types (some types)

module _ (glob : Text → Text → Bool) where
  -- The line of a link: the name of its record, its field, the symbol and its text.
  abbrev pub line_of : Text → Link → List Text
  line_of name l =
      let symbol = symbol_of l.field_type (processes l.field_type l.link_type l.opt_pp) in
      (name ++ (b'.' ∷ (l.field ++ (b' ' ∷ (symbol ++ (b' ' ∷ l.text)))))) ∷ []

  abbrev pub link_lines : Option Query → Text → Text → Link → Option Text → List Text
  link_lines q types name l none = []
  link_lines q types name l (some target) =
      if shown types l && accepts glob q target then line_of name l else []

  abbrev pub record_lines : Option Query → Text → Text → List Link → List Text
  record_lines q types name [] = []
  record_lines q types name (l ∷ links) =
      link_lines q types name l l.target ++ record_lines q types name links

  abbrev pub shown_lines : Option Query → Text → List Entry → List Text
  shown_lines q types [] = []
  shown_lines q types (e ∷ entries) =
      (if e.is_alias then [] else record_lines q types e.name e.links)
      ++ shown_lines q types entries
