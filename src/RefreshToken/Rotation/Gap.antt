-- ===== src/RefreshToken/Rotation/Gap.antt =====
-- About a refresh that commits while a revocation of its family is under way.
use approvio.RefreshToken.{RefreshToken}
