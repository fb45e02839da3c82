-- ===== src/Memory/Kinds.antt =====
-- The kinds of cell that the code allocates, each with the Go type of its values.
use kubedns_shepherd.Base.{List, Option, none, some, Text, Bool, ℤ, refl}
use kubedns_shepherd.Api.{Condition}
use kubedns_shepherd.Memory.{
  Pointer, Cell, Kind, OwnerValue, ManagedValue, OptionValue, ConfigValue, FieldsValue, SpecValue,
  StatusValue, ClassValue, ListValue,
}

abbrev as_text : Cell → Option Text
as_text (Cell.text v) = some v
as_text _ = none

abbrev pub text : Kind Text
text = record { cell = Cell.text; view = as_text; view-cell = λ v. refl }

abbrev as_texts : Cell → Option (List Text)
as_texts (Cell.texts v) = some v
as_texts _ = none

abbrev pub texts : Kind (List Text)
texts = record { cell = Cell.texts; view = as_texts; view-cell = λ v. refl }

abbrev as_options : Cell → Option (List OptionValue)
as_options (Cell.options v) = some v
as_options _ = none

abbrev pub options : Kind (List OptionValue)
options = record { cell = Cell.options; view = as_options; view-cell = λ v. refl }

abbrev as_config : Cell → Option ConfigValue
as_config (Cell.config v) = some v
as_config _ = none

abbrev pub config : Kind ConfigValue
config = record { cell = Cell.config; view = as_config; view-cell = λ v. refl }

abbrev as_fields : Cell → Option FieldsValue
as_fields (Cell.fields v) = some v
as_fields _ = none

abbrev pub fields : Kind FieldsValue
fields = record { cell = Cell.fields; view = as_fields; view-cell = λ v. refl }

abbrev as_conditions : Cell → Option (List Condition)
as_conditions (Cell.conditions v) = some v
as_conditions _ = none

abbrev pub conditions : Kind (List Condition)
conditions = record { cell = Cell.conditions; view = as_conditions; view-cell = λ v. refl }

abbrev as_spec : Cell → Option SpecValue
as_spec (Cell.spec v) = some v
as_spec _ = none

abbrev pub spec : Kind SpecValue
spec = record { cell = Cell.spec; view = as_spec; view-cell = λ v. refl }

abbrev as_status : Cell → Option StatusValue
as_status (Cell.status v) = some v
as_status _ = none

abbrev pub status : Kind StatusValue
status = record { cell = Cell.status; view = as_status; view-cell = λ v. refl }

abbrev as_class : Cell → Option ClassValue
as_class (Cell.class v) = some v
as_class _ = none

abbrev pub class : Kind ClassValue
class = record { cell = Cell.class; view = as_class; view-cell = λ v. refl }

abbrev as_classes : Cell → Option (List ClassValue)
as_classes (Cell.classes v) = some v
as_classes _ = none

abbrev pub classes : Kind (List ClassValue)
classes = record { cell = Cell.classes; view = as_classes; view-cell = λ v. refl }

abbrev as_class_list : Cell → Option ListValue
as_class_list (Cell.class_list v) = some v
as_class_list _ = none

abbrev pub class_list : Kind ListValue
class_list = record { cell = Cell.class_list; view = as_class_list; view-cell = λ v. refl }

abbrev as_flag : Cell → Option Bool
as_flag (Cell.flag v) = some v
as_flag _ = none

abbrev pub flag : Kind Bool
flag = record { cell = Cell.flag; view = as_flag; view-cell = λ v. refl }

abbrev as_number : Cell → Option ℤ
as_number (Cell.number v) = some v
as_number _ = none

abbrev pub number : Kind ℤ
number = record { cell = Cell.number; view = as_number; view-cell = λ v. refl }

abbrev as_string_map : Cell → Option (List (Text × Text))
as_string_map (Cell.string_map v) = some v
as_string_map _ = none

abbrev pub string_map : Kind (List (Text × Text))
string_map = record { cell = Cell.string_map; view = as_string_map; view-cell = λ v. refl }

abbrev as_owners : Cell → Option (List OwnerValue)
as_owners (Cell.owners v) = some v
as_owners _ = none

abbrev pub owners : Kind (List OwnerValue)
owners = record { cell = Cell.owners; view = as_owners; view-cell = λ v. refl }

abbrev as_managed : Cell → Option (List ManagedValue)
as_managed (Cell.managed v) = some v
as_managed _ = none

abbrev pub managed : Kind (List ManagedValue)
managed = record { cell = Cell.managed; view = as_managed; view-cell = λ v. refl }

abbrev as_fields_v1 : Cell → Option Pointer
as_fields_v1 (Cell.fields_v1 v) = some v
as_fields_v1 _ = none

abbrev pub fields_v1 : Kind Pointer
fields_v1 = record { cell = Cell.fields_v1; view = as_fields_v1; view-cell = λ v. refl }
