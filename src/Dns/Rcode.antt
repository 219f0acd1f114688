-- ===== src/Dns/Rcode.antt =====
-- `dnslib.RCODE`: the numbers of the response codes.
use hexdns.Common.{ℕ}

abbrev pub noerror : ℕ
noerror = 0

abbrev pub formerr : ℕ
formerr = 1

abbrev pub servfail : ℕ
servfail = 2

abbrev pub nxdomain : ℕ
nxdomain = 3

abbrev pub refused : ℕ
refused = 5

abbrev pub yxdomain : ℕ
yxdomain = 6

abbrev pub yxrrset : ℕ
yxrrset = 7

abbrev pub nxrrset : ℕ
nxrrset = 8

abbrev pub notauth : ℕ
notauth = 9

abbrev pub notzone : ℕ
notzone = 10
