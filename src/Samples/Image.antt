-- ===== src/Samples/Image.antt =====
-- The image that main maps before it reads a file.
use dis.Base.{refl, arith, []}
use dis.Memory.{Memory, caller, map_ram}
use dis.Memory.Valid.{IsValid, map-IsValid}

abbrev bare : Memory
bare = record {
  regions = [];
  default_fill = 0;
  buffers = λ _. record { size = 0xffff; bytes = λ _. 0 };
}

abbrev pub image : Memory
image = (map_ram bare 0 (caller 0) 0xffff).0

pub image-IsValid : IsValid image
image-IsValid =
    (map-IsValid bare 0 0xffff 0 (caller 0) (omega arith) (omega arith) (omega arith) refl
      (omega arith) (omega arith)).1
