-- ===== src/Tests/Inputs.antt =====
-- The inputs that the runs share.
use bmutil.Common.{
  ℕ, [], ◌∷◌, Bytes, IsByte, All, length, replicate, codes, copy_zeroed, length-copy_zeroed,
  copy_zeroed-IsByte, arith, ◌≡◌, refl,
}
use bmutil.Binary.{put_be, put_be-IsByte}
use bmutil.Wire.NetAddress.{NetAddress}
use bmutil.Wire.NetAddress.RoundTrip
use bmutil.Wire.MsgVersion.{MsgVersion}
use bmutil.Wire.MsgVersion.RoundTrip as Version

-- A function with the sizes of SHA-512: the length of its argument in 64 bytes
abbrev pub digest : Bytes → Bytes
digest b = copy_zeroed 64 (put_be 8 (length b))

pub digest_sized : (b : Bytes) → length (digest b) ≡ 64
digest_sized b = length-copy_zeroed 64 (put_be 8 (length b))

pub digest_bytes : (b : Bytes) → All IsByte (digest b)
digest_bytes b = copy_zeroed-IsByte 64 (put_be 8 (length b)) (put_be-IsByte 8 (length b))

abbrev pub main_net : ℕ
main_net = 0xe9beb4d9

abbrev pub peer : NetAddress
peer = record {
  timestamp = 1400000000;
  stream = 1;
  services = 1;
  addr = 127 ∷ 0 ∷ 0 ∷ 1 ∷ [];
  port = 8444;
}

pub peer-IsValid : RoundTrip.IsValid peer
peer-IsValid = record {
  timestamp_fits = omega arith;
  stream_fits = omega arith;
  services_fit = omega arith;
  addr_bytes = ground arith;
  port_fits = omega arith;
}

abbrev pub sha : Bytes
sha = replicate 32 7

pub sha-IsSha : (length sha ≡ 32) × All IsByte sha
sha-IsSha = (refl, ground arith)

abbrev pub hello : MsgVersion
hello = record {
  protocol_version = 3;
  services = 1;
  timestamp = 1400000000;
  addr_you = peer;
  addr_me = peer;
  nonce = 42;
  user_agent = codes "/wire:0.1.0/";
  stream_numbers = 1 ∷ [];
}

pub hello-IsValid : Version.IsValid hello
hello-IsValid = record {
  version_fits = omega arith;
  services_fit = omega arith;
  timestamp_fits = omega arith;
  you_valid = peer-IsValid;
  me_valid = peer-IsValid;
  nonce_fits = omega arith;
  agent_short = omega arith;
  agent_bytes = ground arith;
  few_streams = omega arith;
  streams_fit = ground arith;
}
