-- ===== src/Pack/Tag.antt =====
-- The instruction tags of src/pack/vm.rs, and what can go wrong when packing or unpacking.
use thin_provisioning_tools.Prelude.{ℕ, ◌≡◌, refl, Option, none, some, ◌==◌, if◌then◌else◌}

pub data Tag : Type 0 where
  set pos pos_w neg neg_w const const8 count count8 lit lit_w shifted_run : Tag

-- `t as u8`
abbrev pub tag_code : Tag → ℕ
tag_code set = 0
tag_code pos = 1
tag_code pos_w = 2
tag_code neg = 3
tag_code neg_w = 4
tag_code const = 5
tag_code const8 = 6
tag_code count = 7
tag_code count8 = 8
tag_code lit = 9
tag_code lit_w = 10
tag_code shifted_run = 11

-- `Tag::from_u8`, which the source derives from the order of the constructors.
unfoldable pub from_u8 : ℕ → Option Tag
from_u8 n =
    if n == 0
    then some set
    else if n == 1
    then some pos
    else if n == 2
    then some pos_w
    else if n == 3
    then some neg
    else if n == 4
    then some neg_w
    else if n == 5
    then some const
    else if n == 6
    then some const8
    else if n == 7
    then some count
    else if n == 8
    then some count8
    else if n == 9
    then some lit
    else if n == 10
    then some lit_w
    else if n == 11
    then some shifted_run
    else none

-- `unexpected_eof` is the io error of a reader that ends early. `panicked` is a failed `assert!` or
-- a `panic!`. `stuck` is no result of the source: the model ran out of fuel.
pub data VmError : Type 0 where
  unexpected_eof panicked stuck : VmError

pub from_u8-tag_code : (t : Tag) → from_u8 (tag_code t) ≡ some t
unfolding from_u8
from_u8-tag_code set = refl
from_u8-tag_code pos = refl
from_u8-tag_code pos_w = refl
from_u8-tag_code neg = refl
from_u8-tag_code neg_w = refl
from_u8-tag_code const = refl
from_u8-tag_code const8 = refl
from_u8-tag_code count = refl
from_u8-tag_code count8 = refl
from_u8-tag_code lit = refl
from_u8-tag_code lit_w = refl
from_u8-tag_code shifted_run = refl
