-- ===== src/Guards.antt =====
-- client/src/protection/anti_tamper.cpp and anti_debug.cpp: the checks that are reported and stop
-- nothing. What Windows answers, the loaded image included, is the parameter `Windows`.
pub mod Checksum
use crackme.Base.{
  ℕ, zero, suc, ◌+◌, ◌*◌, List, [], ◌∷◌, Bool, true, false, bit_and, bit_xor, not, ◌||◌, Bytes, u32,
  ◌==◌, same_bytes, if◌then◌else◌, take, Option, none, some,
}
use crackme.Config.{ascii}

abbrev pub k_const_table : List ℕ
k_const_table =
    0x9E3779B9 ∷ 0x85EBCA77 ∷ 0xC2B2AE3D ∷ 0x27D4EB2F ∷ 0x165667B1 ∷ 0xD1B54A33 ∷ 0x811C9DC5
    ∷ 0x01000193 ∷ []

unfoldable pub table_loop : List ℕ → ℕ → ℕ
table_loop [] s = s
table_loop (v ∷ vs) s = table_loop vs (u32 (u32 (bit_xor s v * 0x01000193) + 0xABCD))

unfoldable pub const_table_expected : ℕ
const_table_expected = table_loop k_const_table 0x12345678

-- The fields of `IMAGE_SECTION_HEADER` that are read; `name` has 8 bytes.
pub record Section : Type 0 where
  pub name : Bytes
  pub virtual_address : ℕ
  pub virtual_size : ℕ

-- The loaded module: its headers' magic numbers, its sections, and the byte at an offset.
pub record Image : Type 0 where
  pub e_magic : ℕ
  pub signature : ℕ
  pub sections : List Section
  pub byte_at : ℕ → ℕ

-- The debug registers of a `CONTEXT`.
pub record DebugRegisters : Type 0 where
  pub dr0 : ℕ
  pub dr1 : ℕ
  pub dr2 : ℕ
  pub dr3 : ℕ
  pub dr7 : ℕ

-- What the calls of Windows give, and the two constants of its headers. `peb` holds the bytes of the
-- process environment block, if there is one; `timing_anomaly` is the measurement of that name.
pub record Windows : Type 0 where
  pub image_dos_signature : ℕ
  pub image_nt_signature : ℕ
  pub module_image : Option Image
  pub is_debugger_present : Bool
  pub remote_debugger_present : ℕ
  pub peb : Option (ℕ → ℕ)
  pub thread_context : Option DebugRegisters
  pub timing_anomaly : Bool

unfoldable pub find_section : List Section → Option Section
find_section [] = none
find_section (s ∷ rest) =
    let later = find_section rest in
    if same_bytes (take 5 s.name) (ascii ".text") then some s else later

unfoldable pub find_in : Windows → Image → Option Section
find_in os image =
    if not (image.e_magic == os.image_dos_signature)
    then none
    else if not (image.signature == os.image_nt_signature)
    then none
    else find_section image.sections

-- The image and its section.
unfoldable pub with_section : Image → Option Section → Option (Image × Section)
with_section image none = none
with_section image (some s) = some (image, s)

unfoldable pub find_text_in : Windows → Option Image → Option (Image × Section)
find_text_in os none = none
find_text_in os (some image) = with_section image (find_in os image)

unfoldable pub find_text : Windows → Option (Image × Section)
find_text os = find_text_in os os.module_image

pub record TamperReport : Type 0 where
  pub const_table_ok : Bool
  pub text_checksum : ℕ
  pub int3_count : ℕ

-- The loop over `text`, with `n` bytes to go from the offset `at` on.
unfoldable pub text_loop : (ℕ → ℕ) → ℕ → ℕ → ℕ → ℕ → ℕ × ℕ
text_loop text zero at cs int3 = (cs, int3)
text_loop text (suc n) at cs int3 =
    text_loop text n (at + 1) (u32 (bit_xor cs (text at) * 0x01000193))
      (if text at == 0xCC then u32 (int3 + 1) else int3)

unfoldable pub text_report : Bool → Option (Image × Section) → TamperReport
text_report table_ok none = record { const_table_ok = table_ok; text_checksum = 0; int3_count = 0 }
text_report table_ok (some (image, s)) =
    let (cs, int3) = text_loop image.byte_at s.virtual_size s.virtual_address 0x811C9DC5 0 in
    record { const_table_ok = table_ok; text_checksum = cs; int3_count = int3 }

unfoldable pub run_anti_tamper : Windows → TamperReport
run_anti_tamper os =
    text_report (table_loop k_const_table 0x12345678 == const_table_expected) (find_text os)

unfoldable pub remote_debugger : Windows → Bool
remote_debugger os = not (os.remote_debugger_present == 0)

unfoldable pub peb_being_debugged : Option (ℕ → ℕ) → Bool
peb_being_debugged none = false
peb_being_debugged (some peb) = not (peb 2 == 0)

unfoldable pub hardware_breakpoints : Option DebugRegisters → Bool
hardware_breakpoints none = false
hardware_breakpoints (some ctx) =
    not (ctx.dr0 == 0)
    || not (ctx.dr1 == 0)
    || not (ctx.dr2 == 0)
    || not (ctx.dr3 == 0)
    || not (bit_and ctx.dr7 0xFF == 0)

-- What `run_guards` prints.
pub data GuardLine : Type 0 where
  guard_flags : (dbg remote peb hwbp slow : Bool) → GuardLine
  tamper_checks : TamperReport → GuardLine
  environment_detected : GuardLine

unfoldable pub run_guards : Windows → Bool → List GuardLine
run_guards os verbose =
    let dbg = os.is_debugger_present in
    let remote = remote_debugger os in
    let peb = peb_being_debugged os.peb in
    let hwbp = hardware_breakpoints os.thread_context in
    let slow = os.timing_anomaly in
    let tr = run_anti_tamper os in
    let watched = dbg || remote || peb || hwbp || slow in
    let detected : List GuardLine = if watched then environment_detected ∷ [] else [] in
    if verbose then guard_flags dbg remote peb hwbp slow ∷ tamper_checks tr ∷ detected else []
