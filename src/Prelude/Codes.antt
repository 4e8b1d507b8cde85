-- ===== src/Prelude/Codes.antt =====
-- What a call gives: the value, one of the library's error codes (rtperrors.h), or a read outside
-- the memory that it was handed.
use mathlib.Core.Path.{◌≡◌, refl}

pub data ErrorCode : Type 0 where
  out_of_mem : ErrorCode
  packet_badpayloadtype packet_dataexceedsmaxsize packet_invalidpacket : ErrorCode
  packet_toomanycsrcs packet_externalbuffernull packet_illegalbuffersize : ErrorCode
  packbuild_alreadyinit packbuild_csrcalreadyinlist packbuild_csrclistfull : ErrorCode
  packbuild_csrcnotinlist packbuild_defaultmarknotset : ErrorCode
  packbuild_defaultpayloadtypenotset packbuild_defaulttsincnotset : ErrorCode
  packbuild_invalidmaxpacketsize packbuild_notinit : ErrorCode
  rtcpcompound_invalidpacket : ErrorCode
  rtcpcomppackbuilder_alreadybuilding rtcpcomppackbuilder_alreadybuilt : ErrorCode
  rtcpcomppackbuilder_alreadygotreport rtcpcomppackbuilder_appdatalentoobig : ErrorCode
  rtcpcomppackbuilder_buffersizetoosmall rtcpcomppackbuilder_illegalappdatalength : ErrorCode
  rtcpcomppackbuilder_illegalsubtype rtcpcomppackbuilder_invaliditemtype : ErrorCode
  rtcpcomppackbuilder_maxpacketsizetoosmall rtcpcomppackbuilder_nocurrentsource : ErrorCode
  rtcpcomppackbuilder_noreportpresent rtcpcomppackbuilder_notbuilding : ErrorCode
  rtcpcomppackbuilder_notenoughbytesleft rtcpcomppackbuilder_reportnotstarted : ErrorCode
  rtcpcomppackbuilder_toomanyssrcs rtcpcomppackbuilder_totalitemlengthtoobig : ErrorCode
  sdes_lengthtoobig sdes_maxprivitems sdes_prefixnotfound : ErrorCode
  collisionlist_badaddress : ErrorCode
  sources_alreadyhaveownssrc sources_donthaveownssrc sources_ssrcexists : ErrorCode
  schedparams_invalidbandwidth schedparams_badfraction schedparams_badminimuminterval : ErrorCode

pub data Outcome {ℓ} (A : Type ℓ) : Type ℓ where
  ok : A → Outcome A
  err : ErrorCode → Outcome A
  fault : Outcome A

-- The next part of a call runs on the value of the first part.
infixl 5 ◌>>=◌
abbrev pub ◌>>=◌ {κ ℓ} : {V : Type ℓ} {W : Type κ} → Outcome V → (V → Outcome W) → Outcome W
fault >>= next = fault
err code >>= next = err code
ok v >>= next = next v

-- A call that returns tells what its first part returned.
pub >>=-eq-ok {κ ℓ} :
    {V : Type ℓ} {W : Type κ} {w : W} (first : Outcome V) (next : V → Outcome W)
    → (first >>= next) ≡ ok w
    → (v : V) × (first ≡ ok v) × (next v ≡ ok w)
>>=-eq-ok fault next e = cc
>>=-eq-ok (err code) next e = cc
>>=-eq-ok (ok v) next e = (v, refl, e)

pub ok-injective {ℓ} : {A : Type ℓ} {a b : A} → ok a ≡ ok b → a ≡ b
ok-injective e = cc
